-- ===== src/Frame/Build.antt =====
-- src/transport/haier_frame.cpp: the constructor of a frame from its data, the moves, and the size
-- on the wire.
use haier_protocol.Prelude.{
  ℕ, zero, suc, ◌+◌, ◌*◌, ◌/◌, ◌%◌, Bool, List, [], ◌∷◌, take, ltb, ◌==◌, if◌then◌else◌, u8,
}
use haier_protocol.Frame.Types.{
  HaierFrame, frame_complete, frame_header_size, separator_byte, separator_post_byte,
  pure_header_size, use_crc_mask, header_size_pos, header_crc_flag_pos, header_frame_type_pos,
  initial_crc,
}
use haier_protocol.Frame.Checksums.{crc16_byte}

unfoldable pub get_header_byte : HaierFrame → ℕ → ℕ
get_header_byte f pos =
    if ltb pos header_size_pos
    then separator_byte
    else (if pos == header_size_pos
        then u8 (pure_header_size + f.data_size)
        else (if pos == header_crc_flag_pos
            then (if f.use_crc then use_crc_mask else 0)
            else (if pos == header_frame_type_pos then f.frame_type else 0)))

-- the body of the constructor's two loops: what one byte adds to `additional_bytes_`,
-- `checksum_` and `crc_`
unfoldable pub account : HaierFrame → ℕ → HaierFrame
account f byte = record f {
  additional_bytes =
      if byte == separator_byte then u8 (f.additional_bytes + 1) else f.additional_bytes;
  checksum = if ltb 0 byte then u8 (f.checksum + byte) else f.checksum;
  crc = if f.use_crc then crc16_byte byte f.crc else f.crc;
}

unfoldable pub header_accounts : ℕ → ℕ → HaierFrame → HaierFrame
unfolding account get_header_byte
header_accounts zero pos f = f
header_accounts (suc n) pos f = header_accounts n (pos + 1) (account f (get_header_byte f pos))

unfoldable pub data_accounts : List ℕ → HaierFrame → HaierFrame
unfolding account
data_accounts [] f = f
data_accounts (b ∷ bs) f = data_accounts bs (account f b)

-- what the initialisers set
abbrev pub initial_frame : ℕ → ℕ → Bool → HaierFrame
initial_frame frame_type data_size use_crc = record {
  frame_type = frame_type;
  use_crc = use_crc;
  data_size = data_size;
  checksum = 0;
  crc = initial_crc;
  bytes = [];
  status = frame_complete;
  additional_bytes = 0;
}

abbrev pub add_post_bytes : HaierFrame → HaierFrame
add_post_bytes f = record f {
  checksum = u8 (f.checksum + f.additional_bytes * separator_post_byte);
}

-- `HaierFrame(frame_type, data, data_size, use_crc)`
unfoldable pub make : ℕ → List ℕ → ℕ → Bool → HaierFrame
unfolding header_accounts data_accounts
make frame_type bytes data_size use_crc =
    let header = header_accounts 8 header_size_pos (initial_frame frame_type data_size use_crc) in
    let held = take data_size bytes in
    add_post_bytes
      (if ltb 0 data_size then data_accounts held (record header { bytes = held }) else header)

-- The move constructor and the move assignment: the new frame, and what is left of the source.
unfoldable pub move : HaierFrame → HaierFrame × HaierFrame
move source = (source, record source { bytes = [] })

unfoldable pub get_buffer_size : HaierFrame → ℕ
get_buffer_size f =
    let result = frame_header_size + f.data_size + f.additional_bytes in
    let result = if f.checksum == separator_byte then result + 2 else result + 1 in
    if f.use_crc
    then result
      + 2
      + (if f.crc % 256 == separator_byte then 1 else 0)
      + (if f.crc / 256 % 256 == separator_byte then 1 else 0)
    else result
