-- ===== src/Frame/Checksums.antt =====
-- src/transport/haier_frame.cpp, `crc16` and `checksum`: the CRC-16/ARC of a buffer by a table of 256
-- entries, and its byte sum.
mod Table
use Prim.Native.Nat.{bit_and, bit_xor}
use haier_protocol.Prelude.{ℕ, ◌+◌, ◌/◌, List, [], ◌∷◌, get_or, u8, u16}
unfoldable pub use Table.{crc_table}

-- `crc16` of one byte. The result is converted to `uint16_t`.
unfoldable pub crc16_byte : ℕ → ℕ → ℕ
crc16_byte byte crc =
    u16 (bit_xor (crc / 256) (get_or crc_table (bit_and (bit_xor crc byte) 0xff) 0))

-- `crc16` of a buffer
unfoldable pub crc16 : List ℕ → ℕ → ℕ
crc16 [] crc = crc
crc16 (b ∷ buffer) crc = crc16 buffer (crc16_byte b crc)

-- `checksum` of a buffer
unfoldable pub checksum : List ℕ → ℕ → ℕ
checksum [] result = result
checksum (b ∷ buffer) result = checksum buffer (u8 (result + b))
