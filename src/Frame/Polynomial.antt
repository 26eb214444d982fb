-- ===== src/Frame/Polynomial.antt =====
-- `crc_table` of haier_frame.cpp, against the polynomial of CRC-16/ARC.
use Prim.Native.Nat.{bit_xor}
use haier_protocol.Prelude.{
  ℕ, zero, suc, ◌/◌, ◌%◌, ◌<◌, ◌≡◌, refl, sym, ap, ◌∙◌, Bool, true, ◌&&◌, arith, get_or, ◌==◌,
  if◌then◌else◌, Bool-cases, inl, inr,
}
use haier_protocol.Frame.Checksums.{crc_table}

-- One bit is shifted out of a remainder; the polynomial 0x8005 is reflected, as the bits are.
abbrev pub shifted : ℕ → ℕ
shifted crc = if crc % 2 == 1 then bit_xor (crc / 2) 0xa001 else crc / 2

unfoldable pub shifted_by : ℕ → ℕ → ℕ
shifted_by zero crc = crc
shifted_by (suc n) crc = shifted_by n (shifted crc)

-- Whether two functions agree below a number.
agree : (ℕ → ℕ) → (ℕ → ℕ) → ℕ → Bool
agree f g zero = true
agree f g (suc n) = f n == g n && agree f g n

agree_at : (f g : ℕ → ℕ) (n i : ℕ) → agree f g n ≡ true → i < n → f i ≡ g i
unfolding agree
agree_at f g zero i e h = absurd (omega arith)
agree_at f g (suc n) i e h = elim (Bool-cases (f n == g n)) [
  | inl same ↦
      let here : f n ≡ g n = ground (arith, same) in
      let below : agree f g n ≡ true = ap (λ b. b && agree f g n) (sym same) ∙ e in
      elim (Bool-cases (i == n)) [
        | inl last ↦ ap f (ground (arith, last)) ∙ (here ∙ ap g (ground (arith, last)))
        | inr other ↦ agree_at f g n i below (ground (arith, other, h))
      ]
  | inr differs ↦ absurd (grind (arith, differs, e))
]

entry : ℕ → ℕ
entry i = get_or crc_table i 0

agree_all : agree entry (shifted_by 8) 256 ≡ true
unfolding agree entry shifted_by crc_table
agree_all = refl

-- Every entry of `crc_table`, for an index below 256, is what eight shifts make of the index by the
-- polynomial of CRC-16/ARC.
pub crc_table_lem : (i : ℕ) → i < 256 → get_or crc_table i 0 ≡ shifted_by 8 i
unfolding entry
crc_table_lem i h = agree_at entry (shifted_by 8) 256 i agree_all h
