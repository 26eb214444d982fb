-- ===== src/Log/Text.antt =====
-- src/utils/haier_log.cpp, `buf_to_hex`: the text is the bytes' digits, with spaces between.
use haier_protocol.Prelude.{
  ap₂, ℕ, suc, ◌+◌, ◌-◌, ◌*◌, ◌/◌, ◌%◌, ◌<◌, ◌≡◌, refl, sym, ap, ◌∙◌, Bool, true, false, ◌&&◌, List,
  [], ◌∷◌, ◌++◌, append_assoc, length, get_or, set, replicate, All, IsByte, arith, ltb, ◌==◌,
  ==_iff, if◌then◌else◌, if_false, accepts_below, accepts_below_at, set-at_length, length-append,
  size_mod, size_sub,
}
use haier_protocol.Log.{hex_map, hex_digit, hex_loop, buf_to_hex}

-- A hexadecimal digit, and the two of a byte.
abbrev pub digit : ℕ → ℕ
digit n = if ltb n 10 then b'0' + n else b'A' + (n - 10)

abbrev pub hex : ℕ → List ℕ
hex b = digit (b / 16) ∷ digit (b % 16) ∷ []

-- The digits of bytes, with a space between two bytes.
abbrev pub joined : List ℕ → List ℕ
joined [] = []
joined (b ∷ []) = hex b
joined (b ∷ c ∷ rest) = hex b ++ b' ' ∷ joined (c ∷ rest)

abbrev digits_right : ℕ → Bool
digits_right b = hex_digit b 0 == digit (b / 16) && hex_digit b 1 == digit (b % 16)

all_digits : accepts_below digits_right 256 ≡ true
unfolding accepts_below hex_map
all_digits = refl

pub hex_digit-digit :
    (b : ℕ) → b < 256 → (hex_digit b 0 ≡ digit (b / 16)) × (hex_digit b 1 ≡ digit (b % 16))
hex_digit-digit b h =
    let right = accepts_below_at digits_right h all_digits in
    ((==_iff _ _).0 (and_left _ _ right), (==_iff _ _).0 (and_right _ _ right))
  where
    and_left : (a b : Bool) → (a && b) ≡ true → a ≡ true
    and_left true b e = refl
    and_left false b e = e

    and_right : (a b : Bool) → (a && b) ≡ true → b ≡ true
    and_right true b e = e
    and_right false b e = cc

get_or-at_length : (xs ys : List ℕ) (y : ℕ) → get_or (xs ++ y ∷ ys) (length xs) 0 ≡ y
get_or-at_length [] ys y = refl
get_or-at_length (x ∷ xs) ys y = get_or-at_length xs ys y

-- Two characters written behind a text.
set_two :
    (pre rest : List ℕ) (u v x y k : ℕ)
    → length pre ≡ k
    → set (set (pre ++ u ∷ v ∷ rest) k x) (k + 1) y ≡ pre ++ x ∷ y ∷ rest
set_two pre rest u v x y k e =
    ap (λ j. set (set (pre ++ u ∷ v ∷ rest) j x) (k + 1) y) (sym e)
    ∙ (ap (λ l. set l (k + 1) y) (set-at_length pre u x (v ∷ rest))
        ∙ (ap₂ (λ l j. set l j y) (sym (append_assoc pre (x ∷ []) (v ∷ rest)))
              (omega (arith, e, length-append pre (x ∷ [])))
            ∙ (set-at_length (pre ++ x ∷ []) v y rest ∙ append_assoc pre (x ∷ []) (y ∷ rest))))

-- The two digits of the byte behind `done`, written behind `pre`.
hex_step :
    (pre done rest tail : List ℕ) (b : ℕ)
    → length pre ≡ 3 * length done
    → b < 256
    → let at = length done in
      let byte = get_or (done ++ b ∷ rest) at 0 in
      set
        (set (pre ++ b' ' ∷ b' ' ∷ tail) (3 * at) (hex_digit byte 0))
        (3 * at + 1)
        (hex_digit byte 1)
      ≡ pre ++ digit (b / 16) ∷ digit (b % 16) ∷ tail
hex_step pre done rest tail b e h =
    set_two pre tail b' ' b' ' _ _ (3 * length done) e
    ∙ ap₂ (λ x y. pre ++ x ∷ y ∷ tail)
        (ap (λ c. hex_digit c 0) (get_or-at_length done rest b) ∙ (hex_digit-digit b h).0)
        (ap (λ c. hex_digit c 1) (get_or-at_length done rest b) ∙ (hex_digit-digit b h).1)

hex_loop-joined :
    (pre done rest : List ℕ)
    → length pre ≡ 3 * length done
    → All IsByte rest
    → hex_loop
        (length rest)
        (length done)
        (done ++ rest)
        (pre ++ replicate (length rest * 3 - 1) b' ')
      ≡ pre ++ joined rest
unfolding hex_loop
hex_loop-joined pre done [] e h = refl
hex_loop-joined pre done (b ∷ []) e h = hex_step pre done [] [] b e h.0
hex_loop-joined pre done (b ∷ c ∷ rest) e h =
    let tail : List ℕ = replicate (length (c ∷ rest) * 3 - 1) b' ' in
    let pre' : List ℕ = pre ++ digit (b / 16) ∷ digit (b % 16) ∷ b' ' ∷ [] in
    let done' : List ℕ = done ++ b ∷ [] in
    ap (λ l. hex_loop (suc (length (c ∷ rest))) (length done) (done ++ b ∷ c ∷ rest) (pre ++ l))
      (ap (λ n. replicate n b' ') {y = suc (suc (suc (length (c ∷ rest) * 3 - 1)))} (omega arith))
    ∙ (ap (λ l. hex_loop (length (c ∷ rest)) (suc (length done)) (done ++ b ∷ c ∷ rest) l)
          (hex_step pre done (c ∷ rest) (b' ' ∷ tail) b e h.0
            ∙ sym (append_assoc pre (digit (b / 16) ∷ digit (b % 16) ∷ b' ' ∷ []) tail))
        ∙ (ap₂ (λ i l. hex_loop (length (c ∷ rest)) i l (pre' ++ tail))
              (omega (arith, length-append done (b ∷ [])))
              (sym (append_assoc done (b ∷ []) (c ∷ rest)))
            ∙ (hex_loop-joined pre' done' (c ∷ rest)
                  (omega (
                    arith,
                    e,
                    length-append done (b ∷ []),
                    length-append pre (digit (b / 16) ∷ digit (b % 16) ∷ b' ' ∷ []),
                  ))
                  h.1
                ∙ append_assoc pre (digit (b / 16) ∷ digit (b % 16) ∷ b' ' ∷ [])
                    (joined (c ∷ rest)))))

-- For bytes whose text is not longer than a `size_t` can say: `buf_to_hex` gives the two hexadecimal
-- digits of each byte in order, with one space between two bytes, and nothing for no bytes.
pub buf_to_hex-joined :
    (message : List ℕ)
    → All IsByte message
    → length message * 3 < size_mod
    → buf_to_hex message ≡ joined message
unfolding buf_to_hex
buf_to_hex-joined [] h k = refl
buf_to_hex-joined (b ∷ rest) h k =
    if_false {b = length (b ∷ rest) == 0} _ _ (ground arith)
    ∙ (ap (λ n. hex_loop (length (b ∷ rest)) 0 (b ∷ rest) (replicate n b' '))
          {x = size_sub (length (b ∷ rest) * 3 % size_mod) 1} (omega (arith, k))
        ∙ hex_loop-joined [] [] (b ∷ rest) refl h)
