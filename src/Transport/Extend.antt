-- ===== src/Transport/Extend.antt =====
-- protocol_transport.cpp, `process_data` within a frame: more bytes behind those at hand change nothing
-- of what is made of these.
use haier_protocol.Prelude.{
  ℕ, zero, suc, ◌+◌, ◌-◌, ◌≤◌, ◌<◌, ◌≡◌, refl, sym, ap, ap₂, subst, ◌∙◌, Bool, true, false, not,
  ◌||◌, List, [], ◌∷◌, ◌++◌, arith, length, length-append, get_or, get_or-append_left,
  if◌then◌else◌, ◌==◌, Bool-cases, inl, inr, size_sub, min, or_else,
}
use haier_protocol.Prelude
use haier_protocol.Circular.{Circular, IsValid, get_size, index}
use haier_protocol.Circular
use haier_protocol.Circular.Contents.{contents, length-contents, index_lem}
use haier_protocol.Circular.Remove.{drop_lem}
use haier_protocol.Frame.Types.{separator_byte, separator_post_byte}
use haier_protocol.Transport.Scan.{unescape_loop}

-- A ring that holds more bytes behind those of another one.
pub record Extends (more : List ℕ) (c c' : Circular) : Type 0 where
  pub valid : IsValid c
  pub valid' : IsValid c'
  pub bytes : contents c' ≡ contents c ++ more

pub get_size-Extends :
    (more : List ℕ) (c c' : Circular) → Extends more c c' → get_size c' ≡ get_size c + length more
get_size-Extends more c c' x =
    sym (length-contents c')
    ∙ ap length x.bytes
    ∙ length-append (contents c) more
    ∙ ap (λ n. n + length more) (length-contents c)

pub index-Extends :
    (more : List ℕ) (c c' : Circular) (i : ℕ)
    → Extends more c c'
    → i < get_size c
    → index c' i ≡ index c i
index-Extends more c c' i x h =
    index_lem i x.valid' (omega (arith, h, get_size-Extends more c c' x))
    ∙ ap (λ l. get_or l i 0) x.bytes
    ∙ get_or-append_left (contents c) more i 0 (omega (arith, h, length-contents c))
    ∙ sym (index_lem i x.valid h)

pub drop-append_left :
    (n : ℕ) (xs ys : List ℕ) → n ≤ length xs → Prelude.drop n (xs ++ ys) ≡ Prelude.drop n xs ++ ys
drop-append_left zero xs ys h = refl
drop-append_left (suc n) [] ys h = absurd (omega arith)
drop-append_left (suc n) (x ∷ xs) ys h = drop-append_left n xs ys (omega arith)

pub drop-Extends :
    (more : List ℕ) (c c' : Circular) (n : ℕ)
    → Extends more c c'
    → n ≤ get_size c
    → Extends more (Circular.drop c n).0 (Circular.drop c' n).0
drop-Extends more c c' n x h =
    let (count, drops) = drop_lem n x.valid in
    let (count', drops') = drop_lem n x.valid' in
    let size = get_size-Extends more c c' x in
    record {
      valid = drops.valid;
      valid' = drops'.valid;
      bytes =
          drops'.bytes
          ∙ ap₂ Prelude.drop (count' ∙ omega (arith, h, size) ∙ sym count) x.bytes
          ∙ drop-append_left (Circular.drop c n).1 (contents c) more
              (omega (arith, count, h, length-contents c))
          ∙ ap (λ l. l ++ more) (sym drops.bytes);
    }

-- One round of the loop, from the two bytes that it looks at and what follows.
unescape_step : ℕ → ℕ → ℕ → Bool × List ℕ × ℕ → Bool × List ℕ × ℕ
unescape_step b_pos before here (correct, bytes, end) =
    if b_pos == 0 || not (before == separator_byte)
    then (correct, here ∷ bytes, end)
    else (if not (here == separator_post_byte) then (false, [], b_pos) else (correct, bytes, end))

pub unescape_loop-Extends :
    (more : List ℕ) (c c' : Circular) (n b : ℕ)
    → Extends more c c'
    → b + n ≤ get_size c
    → unescape_loop c' n b ≡ unescape_loop c n b
unfolding unescape_loop unescape_step
unescape_loop-Extends more c c' zero b x h = refl
unescape_loop-Extends more c c' (suc n) b x h =
    ap (unescape_step b (index c' (b - 1)) (index c' b))
      (unescape_loop-Extends more c c' n (b + 1) x (omega arith))
    ∙ ap₂ (λ before here. unescape_step b before here (unescape_loop c n (b + 1)))
        (index-Extends more c c' (b - 1) x (omega arith))
        (index-Extends more c c' b x (omega arith))
