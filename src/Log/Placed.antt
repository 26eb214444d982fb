-- ===== src/Log/Placed.antt =====
-- src/utils/haier_log.cpp: lists of writes, and the loop of `print_buf` as one of them.
use haier_protocol.Prelude.{
  ap₂, ℕ, zero, suc, ◌+◌, ◌*◌, ◌/◌, ◌%◌, ◌≤◌, ◌<◌, ◌≡◌, refl, sym, ap, ◌∙◌, List, [], ◌∷◌, ◌++◌,
  length, take, drop, get_or, set, store_at, All, IsByte, arith,
}
use haier_protocol.Log.{hex_digit, print_loop, Writes, writes_at}
use haier_protocol.Log.Text.{digit, joined, hex_digit-digit}

-- Every write is below the offset.
abbrev pub InBounds : ℕ → Writes → Type 0
InBounds size = All (λ (w : ℕ × ℕ). w.0 < size)

-- Memory after the writes.
unfoldable pub written : Writes → List ℕ → List ℕ
written [] buffer = buffer
written ((i, c) ∷ rest) buffer = written rest (set buffer i c)

pub written-append :
    (a b : Writes) (buffer : List ℕ) → written (a ++ b) buffer ≡ written b (written a buffer)
unfolding written
written-append [] b buffer = refl
written-append ((i, c) ∷ a) b buffer = written-append a b (set buffer i c)

pub written-writes_at :
    (i : ℕ) (text buffer : List ℕ) → written (writes_at i text) buffer ≡ store_at buffer i text
unfolding written store_at
written-writes_at i [] buffer = refl
written-writes_at i (c ∷ rest) buffer =
    written-writes_at (suc i) rest (set buffer i c)
    ∙ ap (λ j. store_at (set buffer i c) j rest) {y = i + 1} (omega arith)

-- The digits of bytes, each byte with a space behind it.
abbrev pub spaced : List ℕ → List ℕ
spaced [] = []
spaced (b ∷ rest) = digit (b / 16) ∷ digit (b % 16) ∷ b' ' ∷ spaced rest

pub length-spaced : (l : List ℕ) → length (spaced l) ≡ 3 * length l
length-spaced [] = omega arith
length-spaced (b ∷ rest) = omega (arith, length-spaced rest)

pub spaced-joined : (b : ℕ) (rest : List ℕ) → spaced (b ∷ rest) ≡ joined (b ∷ rest) ++ b' ' ∷ []
spaced-joined b [] = refl
spaced-joined b (c ∷ rest) =
    ap (λ l. digit (b / 16) ∷ digit (b % 16) ∷ b' ' ∷ l) (spaced-joined c rest)

take-suc-drop :
    (n i : ℕ) (l : List ℕ)
    → i < length l
    → take (suc n) (drop i l) ≡ get_or l i 0 ∷ take n (drop (suc i) l)
take-suc-drop n i [] h = absurd (omega arith)
take-suc-drop n zero (x ∷ xs) h = refl
take-suc-drop n (suc i) (x ∷ xs) h = take-suc-drop n i xs (omega arith)

All-get_or : (l : List ℕ) (i : ℕ) → All IsByte l → get_or l i 0 < 256
All-get_or [] i h = omega arith
All-get_or (x ∷ xs) zero h = h.0
All-get_or (x ∷ xs) (suc i) h = All-get_or xs i h.1

pub write_three :
    (o k x y z : ℕ) (rest : List ℕ)
    → k ≡ o + 3
    → (o, x) ∷ (o + 1, y) ∷ (o + 2, z) ∷ writes_at k rest ≡ writes_at o (x ∷ y ∷ z ∷ rest)
write_three o k x y z rest e =
    ap (λ j. (o, x) ∷ (j, y) ∷ (o + 2, z) ∷ writes_at k rest) {y = suc o} (omega arith)
    ∙ (ap (λ j. (o, x) ∷ (suc o, y) ∷ (j, z) ∷ writes_at k rest) {y = suc (suc o)} (omega arith)
        ∙ ap (λ j. (o, x) ∷ (suc o, y) ∷ (suc (suc o), z) ∷ writes_at j rest)
            {y = suc (suc (suc o))} (omega (arith, e)))

-- The loop writes the digits of `n` bytes, one behind the other.
pub print_loop-spaced :
    (n i : ℕ) (src : List ℕ)
    → All IsByte src
    → i + n ≤ length src
    → print_loop n i src ≡ writes_at (3 * i) (spaced (take n (drop i src)))
unfolding print_loop
print_loop-spaced zero i src h k = refl
print_loop-spaced (suc n) i src h k =
    let b = get_or src i 0 in
    let rest = spaced (take n (drop (suc i) src)) in
    let d = hex_digit-digit b (All-get_or src i h) in
    ap (λ w. (3 * i, hex_digit b 0) ∷ (3 * i + 1, hex_digit b 1) ∷ (3 * i + 2, b' ') ∷ w)
      (print_loop-spaced n (suc i) src h (omega arith))
    ∙ (ap₂ (λ x y. (3 * i, x) ∷ (3 * i + 1, y) ∷ (3 * i + 2, b' ') ∷ writes_at (3 * suc i) rest) d.0
          d.1
        ∙ (write_three (3 * i) (3 * suc i) (digit (b / 16)) (digit (b % 16)) b' ' rest (omega arith)
            ∙ ap (λ l. writes_at (3 * i) (spaced l)) (sym (take-suc-drop n i src (omega arith)))))

pub writes_at-InBounds :
    (i size : ℕ) (text : List ℕ) → i + length text ≤ size → InBounds size (writes_at i text)
writes_at-InBounds i size [] h = tt
writes_at-InBounds i size (c ∷ rest) h =
    (omega arith, writes_at-InBounds (suc i) size rest (omega arith))

pub writes_at-append :
    (i : ℕ) (xs ys : List ℕ)
    → writes_at i (xs ++ ys) ≡ writes_at i xs ++ writes_at (i + length xs) ys
writes_at-append i [] ys = ap (λ j. writes_at j ys) {y = i + 0} (omega arith)
writes_at-append i (x ∷ xs) ys =
    ap (λ w. (i, x) ∷ w)
      (writes_at-append (suc i) xs ys
        ∙ ap (λ j. writes_at (suc i) xs ++ writes_at j ys) {x = suc i + length xs}
            {y = i + suc (length xs)} (omega arith))

-- The end of a text that was cut.
abbrev pub points : ℕ → Writes
points o = (o, b'.') ∷ (o + 1, b'.') ∷ (o + 2, b'.') ∷ (o + 3, 0) ∷ []
