-- ===== src/Bits.antt =====
-- The bit-fields of the packet structures of tools/utils/hon_packet.h and smartair2_packet.h, in the
-- layout of GCC and Clang for little-endian targets: a byte's first field has its lowest bits.
pub mod Digits
pub mod Fields
use haier_protocol.Prelude.{ℕ, ◌+◌, ◌*◌, ◌/◌, ◌%◌, ◌^◌, List, [], ◌∷◌, get_or, set, u8}

-- `uint8_t name : width`, in the byte at `position` of the structure, from bit `shift` on.
pub record BitField : Type 0 where
  pub position : ℕ
  pub shift : ℕ
  pub width : ℕ

-- a member that is a byte
abbrev pub whole : ℕ → BitField
whole position = record { position = position; shift = 0; width = 8 }

abbrev pub bits : ℕ → ℕ → ℕ → BitField
bits position shift width = record { position = position; shift = shift; width = width }

unfoldable pub extract : ℕ → ℕ → ℕ → ℕ
extract shift width byte = byte / 2 ^ shift % 2 ^ width

-- The byte with other digits in the field, `value` modulo `2 ^ width`.
unfoldable pub insert : ℕ → ℕ → ℕ → ℕ → ℕ
insert shift width value byte =
    byte / (2 ^ shift * 2 ^ width) * (2 ^ shift * 2 ^ width)
    + value % 2 ^ width * 2 ^ shift
    + byte % 2 ^ shift

-- `packet.name` and `packet.name = value`
unfoldable pub load : BitField → List ℕ → ℕ
unfolding extract
load f packet = extract f.shift f.width (get_or packet f.position 0)

unfoldable pub assign : BitField → ℕ → List ℕ → List ℕ
unfolding insert
assign f value packet =
    set packet f.position (insert f.shift f.width value (get_or packet f.position 0))

-- a `uint16_t` member
abbrev pub assign_word : ℕ → ℕ → List ℕ → List ℕ
assign_word position value packet =
    set (set packet position (u8 value)) (position + 1) (u8 (value / 256))

-- assignments one after the other
unfoldable pub assign_all : List (BitField × ℕ) → List ℕ → List ℕ
assign_all [] packet = packet
assign_all ((f, value) ∷ rest) packet = assign_all rest (assign f value packet)
