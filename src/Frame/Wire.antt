-- ===== src/Frame/Wire.antt =====
-- The frame format as README.rst describes it, written without a cursor: which bytes a frame is on
-- the wire, with a post byte behind each 0xFF that is not a separator.
use haier_protocol.Prelude.{
  ℕ, ◌+◌, ◌*◌, ◌/◌, ◌%◌, ◌≤◌, ◌≡◌, refl, Bool, List, [], ◌∷◌, ◌++◌, arith, length, ◌==◌, Bool-cases,
  ◌⊎◌, inl, inr, ◌≢◌, if◌then◌else◌, u8,
}
use haier_protocol.Frame.Types.{
  HaierFrame, separator_byte, separator_post_byte, pure_header_size, use_crc_mask,
}

abbrev pub escape : List ℕ → List ℕ
escape [] = []
escape (b ∷ bs) =
    if b == separator_byte then separator_byte ∷ separator_post_byte ∷ escape bs else b ∷ escape bs

abbrev pub separators : List ℕ → ℕ
separators [] = 0
separators (b ∷ bs) = (if b == separator_byte then 1 else 0) + separators bs

abbrev pub sum : List ℕ → ℕ
sum [] = 0
sum (b ∷ bs) = b + sum bs

-- The bytes behind the two separators, up to the data.
abbrev pub header_bytes : ℕ → ℕ → Bool → List ℕ
header_bytes frame_type data_size use_crc =
    u8 (pure_header_size + data_size)
    ∷ (if use_crc then use_crc_mask else 0)
    ∷ 0
    ∷ 0
    ∷ 0
    ∷ 0
    ∷ 0
    ∷ frame_type
    ∷ []

abbrev pub trailer_bytes : HaierFrame → List ℕ
trailer_bytes f = f.checksum ∷ (if f.use_crc then f.crc / 256 % 256 ∷ f.crc % 256 ∷ [] else [])

abbrev pub header_of : HaierFrame → List ℕ
header_of f = header_bytes f.frame_type f.data_size f.use_crc

abbrev pub body_of : HaierFrame → List ℕ
body_of f = f.bytes ++ trailer_bytes f

unfoldable pub wire : HaierFrame → List ℕ
wire f = separator_byte ∷ separator_byte ∷ escape (header_of f ++ body_of f)

-- Whether the first byte has a post byte behind it.
pub escape_cases :
    (b : ℕ) (bs : List ℕ)
    → ((b ≡ separator_byte) × (escape (b ∷ bs) ≡ separator_byte ∷ separator_post_byte ∷ escape bs))
      ⊎ ((b ≢ separator_byte) × (escape (b ∷ bs) ≡ b ∷ escape bs))
escape_cases b bs = elim (Bool-cases (b == separator_byte)) [
  | inl same ↦ inl (ground (arith, same), rw same)
  | inr other ↦ inr (ground (arith, other), rw other)
]

pub length-escape : (bs : List ℕ) → length (escape bs) ≡ length bs + separators bs
length-escape [] = refl
length-escape (b ∷ bs) = ground (arith, length-escape bs)

pub separators-append : (xs ys : List ℕ) → separators (xs ++ ys) ≡ separators xs + separators ys
separators-append [] ys = omega arith
separators-append (x ∷ xs) ys = omega (arith, separators-append xs ys)

pub separators-le : (bs : List ℕ) → separators bs ≤ length bs
separators-le [] = omega arith
separators-le (b ∷ bs) = ground (arith, separators-le bs)

pub escape-append : (xs ys : List ℕ) → escape (xs ++ ys) ≡ escape xs ++ escape ys
escape-append [] ys = refl
escape-append (x ∷ xs) ys = ground (arith, escape-append xs ys)

-- A post byte is 0x55, so escaping adds that much for each 0xFF.
pub sum-escape : (bs : List ℕ) → sum (escape bs) ≡ sum bs + separators bs * separator_post_byte
sum-escape [] = refl
sum-escape (b ∷ bs) = ground (arith, sum-escape bs)

-- At least the separators are there.
pub wire-le : (f : HaierFrame) → 2 ≤ length (wire f)
unfolding wire
wire-le f = omega arith
