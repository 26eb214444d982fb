-- ===== src/Log/Print.antt =====
-- src/utils/haier_log.cpp, `print_buf`: what it writes, and that it stays within its buffer.
use haier_protocol.Prelude.{
  length-take, take_all, take-append_self, ap₂, ℕ, suc, ◌+◌, ◌-◌, ◌*◌, ◌/◌, ◌%◌, ◌≤◌, ◌<◌, ◌≡◌,
  refl, sym, ap, ◌∙◌, Bool, true, false, List, [], ◌∷◌, ◌++◌, append_assoc, length, take, drop, set,
  All, All-append, IsByte, arith, ltb, if◌then◌else◌, if_false, if_true, set-at_length,
  length-append, size_mod, size_sub, size_add, subst, store_at_start,
}
use haier_protocol.Log.{print_loop, finish_text, print_buf, Writes, writes_at}
use haier_protocol.Log.Text.{joined}
use haier_protocol.Log.Placed.{
  InBounds, written, written-append, written-writes_at, spaced, length-spaced, spaced-joined,
  print_loop-spaced, write_three, writes_at-InBounds, writes_at-append, points,
}

-- What fits of the bytes, and the text of it.
abbrev pub shown : List ℕ → ℕ → List ℕ
shown src size =
    if ltb size (length src * 3)
    then spaced (take ((size - 5) / 3) src) ++ b'.' ∷ b'.' ∷ b'.' ∷ []
    else joined src

-- What `print_buf` does in a buffer of `size` characters.
pub record Printed (src : List ℕ) (size : ℕ) (r : Writes × ℕ) : Type 0 where
  pub in_bounds : InBounds size r.0
  pub position : r.1 ≡ length (shown src size)
  pub room : r.1 < size
  pub text :
      (buffer : List ℕ)
      → length buffer ≡ size
      → take (suc r.1) (written r.0 buffer) ≡ shown src size ++ 0 ∷ []

module _ (b : ℕ) (rest : List ℕ) (size : ℕ) (h : All IsByte (b ∷ rest)) where
  abbrev src : List ℕ
  src = b ∷ rest

  loop_writes : (n : ℕ) → n ≤ length src → print_loop n 0 src ≡ writes_at 0 (spaced (take n src))
  loop_writes n k = print_loop-spaced n 0 src h (omega arith)

  pub length-joined : 3 * length src ≡ length (joined src) + 1
  length-joined = omega (
    arith,
    length-spaced src,
    ap (λ l. length l) (spaced-joined b rest),
    length-append (joined src) (b' ' ∷ []),
  )

  all_writes : print_loop (length src) 0 src ≡ writes_at 0 (joined src ++ b' ' ∷ [])
  all_writes =
      loop_writes (length src) (omega arith)
      ∙ ap (writes_at 0)
          (ap spaced (take_all (length src) src (omega arith)) ∙ spaced-joined b rest)

  -- Everything fits: the last space is overwritten by the end of the text.
  all_text :
      (buffer : List ℕ)
      → length src * 3 ≤ length buffer
      → take
          (suc (length (joined src)))
          (written (print_loop (length src) 0 src ++ (length (joined src), 0) ∷ []) buffer)
        ≡ joined src ++ 0 ∷ []
  unfolding written
  all_text buffer k =
      let j = joined src in
      let left = drop (length (j ++ b' ' ∷ [])) buffer in
      ap (take (suc (length j))) (
        written-append (print_loop (length src) 0 src) ((length j, 0) ∷ []) buffer
        ∙ (ap (λ w. set (written w buffer) (length j) 0) all_writes
            ∙ (ap (λ l. set l (length j) 0)
                  (written-writes_at 0 (j ++ b' ' ∷ []) buffer
                    ∙ (store_at_start buffer (j ++ b' ' ∷ [])
                          (omega (arith, length-joined, length-append j (b' ' ∷ [])))
                        ∙ append_assoc j (b' ' ∷ []) left))
                ∙ (set-at_length j b' ' 0 left ∙ sym (append_assoc j (0 ∷ []) left)))))
      ∙ (ap (λ n. take n ((j ++ 0 ∷ []) ++ left)) {x = suc (length j)} {y = length (j ++ 0 ∷ [])}
            (omega (arith, length-append j (0 ∷ [])))
          ∙ take-append_self (j ++ 0 ∷ []) left)

  print_all :
      length src * 3 ≤ size
      → Printed src size
          (print_loop (length src) 0 src ++ (length (joined src), 0) ∷ [], length (joined src))
  print_all fits =
      let all_shown : shown src size ≡ joined src =
        if_false {b = ltb size (length src * 3)} _ _ (ground (arith, fits)) in
      record {
        in_bounds =
            All-append _ (print_loop (length src) 0 src) _
              (subst (InBounds size) (sym all_writes) (
                writes_at-InBounds 0 size (joined src ++ b' ' ∷ [])
                  (omega (arith, fits, length-joined, length-append (joined src) (b' ' ∷ [])))))
              (omega (arith, fits, length-joined), tt);
        position = ap (λ l. length l) (sym all_shown);
        room = omega (arith, fits, length-joined);
        text = λ buffer e.
            all_text buffer (omega (arith, e, fits)) ∙ ap (λ l. l ++ 0 ∷ []) (sym all_shown);
      }

  -- Some bytes and three points.
  abbrev some_shown : ℕ → List ℕ
  some_shown n = spaced (take n src) ++ b'.' ∷ b'.' ∷ b'.' ∷ []

  spaced_size : (n : ℕ) → n ≤ length src → length (spaced (take n src)) ≡ 3 * n
  spaced_size n k = omega (arith, k, length-spaced (take n src), length-take n src)

  some_writes :
      (n : ℕ)
      → n ≤ length src
      → print_loop n 0 src ++ points (3 * n) ≡ writes_at 0 (some_shown n ++ 0 ∷ [])
  some_writes n k =
      let sp = spaced (take n src) in
      let end : List ℕ = b'.' ∷ b'.' ∷ b'.' ∷ 0 ∷ [] in
      ap₂ (λ v w. v ++ w) (loop_writes n k)
        (write_three (3 * n) (3 * n + 3) b'.' b'.' b'.' (0 ∷ []) refl
          ∙ ap (λ o. writes_at o end) {y = 0 + length sp} (omega (arith, spaced_size n k)))
      ∙ (sym (writes_at-append 0 sp end)
          ∙ ap (writes_at 0) (sym (append_assoc sp (b'.' ∷ b'.' ∷ b'.' ∷ []) (0 ∷ []))))

  print_some :
      (n : ℕ)
      → n ≡ (size - 5) / 3
      → 5 ≤ size
      → size < length src * 3
      → Printed src size (print_loop n 0 src ++ points (3 * n), 3 * n + 3)
  print_some n e five long =
      let fits : n ≤ length src = omega (arith, e, long) in
      let cut : shown src size ≡ some_shown n =
        if_true {b = ltb size (length src * 3)} _ _ (ground (arith, long))
        ∙ ap some_shown (sym e) in
      let writes = some_writes n fits in
      let count : length (some_shown n) ≡ 3 * n + 3 = omega (
        arith,
        spaced_size n fits,
        length-append (spaced (take n src)) (b'.' ∷ b'.' ∷ b'.' ∷ []),
      ) in
      let whole = length-append (some_shown n) (0 ∷ []) in
      record {
        in_bounds = subst (InBounds size) (sym writes) (
            writes_at-InBounds 0 size (some_shown n ++ 0 ∷ [])
              (omega (arith, whole, count, e, five)));
        position = sym count ∙ ap (λ l. length l) (sym cut);
        room = omega (arith, e, five);
        text = λ buffer q.
            let left = drop (length (some_shown n ++ 0 ∷ [])) buffer in
            ap (take (suc (3 * n + 3))) (
              ap (λ w. written w buffer) writes
              ∙ (written-writes_at 0 (some_shown n ++ 0 ∷ []) buffer
                  ∙ store_at_start buffer (some_shown n ++ 0 ∷ [])
                      (omega (arith, whole, count, e, five, q))))
            ∙ (ap (λ k. take k ((some_shown n ++ 0 ∷ []) ++ left)) {x = suc (3 * n + 3)}
                  {y = length (some_shown n ++ 0 ∷ [])} (omega (arith, whole, count))
                ∙ (take-append_self (some_shown n ++ 0 ∷ []) left
                    ∙ ap (λ l. l ++ 0 ∷ []) (sym cut)));
      }

-- The writes of a text that is cut, by their offsets.
abbrev cut_at : List ℕ → ℕ → ℕ → ℕ → ℕ → ℕ → Writes × ℕ
cut_at src n o p q r = (print_loop n 0 src ++ (o, b'.') ∷ (p, b'.') ∷ (q, b'.') ∷ (r, 0) ∷ [], r)

cut_at-points :
    (src : List ℕ) (n o p q r : ℕ)
    → o ≡ 3 * n
    → p ≡ 3 * n + 1
    → q ≡ 3 * n + 2
    → r ≡ 3 * n + 3
    → cut_at src n o p q r ≡ (print_loop n 0 src ++ points (3 * n), 3 * n + 3)
cut_at-points src n o p q r a b c d =
    ap₂ (λ o p. cut_at src n o p q r) a b ∙ ap₂ (cut_at src n (3 * n) (3 * n + 1)) c d

abbrev print_with : List ℕ → ℕ → Bool → Writes × ℕ
print_with src size dots =
    let n = if dots then size_sub size 5 / 3 else length src in
    let (writes, pos) = finish_text dots (size_sub (3 * n) 1) in (print_loop n 0 src ++ writes, pos)

print_with-Printed :
    (b : ℕ) (rest : List ℕ) (size : ℕ)
    → All IsByte (b ∷ rest)
    → length (b ∷ rest) * 3 < size_mod
    → 5 ≤ size
    → (dots : Bool) → ltb size (length (b ∷ rest) * 3) ≡ dots
    → Printed (b ∷ rest) size (print_with (b ∷ rest) size dots)
print_with-Printed b rest size h small five true e =
    let long : size < length (b ∷ rest) * 3 = ground (arith, e) in
    let n = size_sub size 5 / 3 in
    let n_is : n ≡ (size - 5) / 3 = omega (arith, five, long, small) in
    let pos = size_add (size_sub (3 * n) 1) 1 in
    let pos_is : pos ≡ 3 * n = omega (arith, n_is, long, small) in
    subst (Printed (b ∷ rest) size)
      (sym (
        cut_at-points (b ∷ rest) n pos (size_add pos 1) (size_add pos 2) (size_add pos 3) pos_is
          (omega (arith, pos_is, n_is, long, small)) (omega (arith, pos_is, n_is, long, small))
          (omega (arith, pos_is, n_is, long, small))))
      (print_some b rest size h n n_is five long)
print_with-Printed b rest size h small five false e =
    let fits : length (b ∷ rest) * 3 ≤ size = ground (arith, e) in
    subst
      (λ p. Printed (b ∷ rest) size (print_loop (length (b ∷ rest)) 0 (b ∷ rest) ++ (p, 0) ∷ [], p))
      (omega (arith, length-joined b rest size h, small)) (print_all b rest size h fits)

-- For a text of bytes that is not empty, and a buffer of at least five characters, both of a size that a
-- `size_t` can say: `print_buf` writes within the buffer only, and its result is the length of the text
-- that stands at the start of the buffer afterwards, with a 0 behind it. The text is the bytes' digits
-- with spaces between, where three characters a byte fit; else it is that of the first
-- `(dst_size - 5) / 3` bytes, a space behind each, and three points.
pub print_buf-Printed :
    (b : ℕ) (rest : List ℕ) (size : ℕ)
    → All IsByte (b ∷ rest)
    → length (b ∷ rest) * 3 < size_mod
    → 5 ≤ size
    → Printed (b ∷ rest) size (print_buf (b ∷ rest) size)
unfolding print_buf
print_buf-Printed b rest size h small five =
    subst (Printed (b ∷ rest) size)
      (sym (
        if_true {b = ltb 0 (length (b ∷ rest))} _ _ (ground arith)
        ∙ ap (print_with (b ∷ rest) size) dots_is))
      (print_with-Printed b rest size h small five (ltb size (length (b ∷ rest) * 3)) refl)
  where
    dots_is : ltb size (length (b ∷ rest) * 3 % size_mod) ≡ ltb size (length (b ∷ rest) * 3)
    dots_is = ap (ltb size) (omega (arith, small))
