-- ===== src/Log/Overrun.antt =====
-- src/utils/haier_log.cpp: the second buffer of `log_haier_buffers` where little room is left.
use haier_protocol.Prelude.{
  ap₂, ℕ, zero, suc, ◌+◌, ◌*◌, ◌/◌, ◌%◌, ◌≤◌, ◌<◌, ◌≡◌, ap, ◌∙◌, Bool, true, ◌&&◌, List, [], ◌∷◌,
  ◌++◌, length, All, IsByte, none, arith, ltb, ◌==◌, if◌then◌else◌, if_false, if_true, size_mod,
  size_sub, subst, lt→ltb, ==-false,
}
use haier_protocol.Log.{
  Writes, buffer_size, shift, print_buf, print_second, log_haier_buffers, print_loop, finish_text,
}
use haier_protocol.Log.Placed.{InBounds}
use haier_protocol.Log.Bounds.{print_end}

pub All-right : {A : Type 0} (P : A → Type 0) (xs ys : List A) → All P (xs ++ ys) → All P ys
All-right P [] ys h = h
All-right P (x ∷ xs) ys h = All-right P xs ys h.1

unshift : (k size : ℕ) (w : Writes) → InBounds (k + size) (shift k w) → InBounds size w
unshift k size [] h = tt
unshift k size ((i, c) ∷ rest) h = (omega (arith, h.0), unshift k size rest h.1)

-- Two bytes take six characters.
loop_needs_six :
    (n size : ℕ) (src : List ℕ) (w : Writes)
    → 2 ≤ n
    → InBounds size (print_loop n 0 src ++ w)
    → 5 < size
unfolding print_loop
loop_needs_six zero size src w h k = absurd (omega arith)
loop_needs_six (suc zero) size src w h k = absurd (omega arith)
loop_needs_six (suc (suc n)) size src w h k = omega (arith, k.1.1.1.1.1.0)

-- For less than five characters `dst_size - 5` wraps around.
print_buf-overruns :
    (src : List ℕ) (size : ℕ)
    → size < 5
    → size < length src * 3
    → length src * 3 < size_mod
    → ¬ InBounds size (print_buf src size).0
unfolding print_buf
print_buf-overruns src size little long small h =
    let dots = ltb size (length src * 3 % size_mod) in
    let n = size_sub size 5 / 3 in
    let cut : dots ≡ true = lt→ltb _ _ (omega (arith, long, small)) in
    let printed : Bool → Writes × ℕ = λ d.
      let m = if d then n else length src in
      let (w, pos) = finish_text d (size_sub (3 * m) 1) in (print_loop m 0 src ++ w, pos) in
    let taken =
      if_true {b = ltb 0 (length src)} (printed dots) ([], 0) (lt→ltb _ _ (omega (arith, long))) in
    let whole = subst (λ (r : Writes × ℕ). InBounds size r.0) (taken ∙ ap printed cut) h in
    let above =
      loop_needs_six n size src (finish_text true (size_sub (3 * n) 1)).0 (omega (arith, little))
        whole in
    absurd (omega (arith, above, little))

-- Without a header, where the first buffer's text and a space leave less than five characters of
-- `msg_buffer` and the second buffer's text needs more than is left: `log_haier_buffers` writes beyond
-- the end of `msg_buffer`.
pub log_haier_buffers-overruns :
    (buffer1 buffer2 : List ℕ)
    → All IsByte buffer1
    → 3 * length buffer1 ≤ buffer_size
    → buffer_size < 3 * length buffer1 + 5
    → buffer_size < 3 * length buffer1 + 3 * length buffer2
    → length buffer2 * 3 < size_mod
    → ¬ InBounds buffer_size (log_haier_buffers none buffer1 buffer2).0
unfolding log_haier_buffers
log_haier_buffers-overruns buffer1 buffer2 h fits tight long small k =
    let first = print_buf buffer1 (size_sub buffer_size 0) in
    let res = 0 + first.1 in
    let size = size_sub buffer_size (res + 1) in
    let nonempty : 0 < length buffer1 = omega (arith, tight) in
    let res_is : res + 1 ≡ 3 * length buffer1 =
      omega (arith, print_end buffer1 0 h nonempty (omega arith) (omega (arith, fits))) in
    let rest : Writes × ℕ = print_second buffer2 res in
    let kept : Writes × ℕ → Type 0 = λ r. InBounds buffer_size r.0 in
    let both : Writes × ℕ = (shift 0 first.0 ++ rest.0, rest.1) in
    let inner =
      if_false {b = length buffer1 + length buffer2 == 0} _ _
        (==-false _ _ (λ e. omega (arith, e, nonempty)))
      ∙ if_true {b = ltb 0 (length buffer1)} both ([], 0) (lt→ltb _ _ nonempty) in
    let second = All-right _ (shift 0 first.0) rest.0 (subst kept inner k) in
    let opened = if_true {b = ltb 0 (size_sub buffer_size res) && ltb 0 (length buffer2)} _ _ (
      ap₂ (λ a b. a && b) (lt→ltb 0 (size_sub buffer_size res) (omega (arith, res_is, fits)))
        (lt→ltb 0 (length buffer2) (omega (arith, long, fits)))) in
    let inside = subst kept opened second in
    let shifted =
      subst (λ n. InBounds n (shift (res + 1) (print_buf buffer2 size).0)) {x = buffer_size}
        {y = res + 1 + size} (omega (arith, res_is, fits)) inside.1 in
    print_buf-overruns buffer2 size (omega (arith, res_is, tight, fits))
      (omega (arith, res_is, long, fits)) small
      (unshift (res + 1) size (print_buf buffer2 size).0 shifted)
