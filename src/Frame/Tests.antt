-- ===== src/Frame/Tests.antt =====
-- The theorems on haier_frame.cpp at a frame with a 0xFF in its data and a CRC.
use haier_protocol.Prelude.{
  ℕ, ◌≤◌, ◌<◌, ◌≡◌, refl, true, List, [], ◌∷◌, ◌++◌, length, false, take, drop, get_or, replicate,
  arith,
}
use haier_protocol.Frame.Types.{
  HaierFrame, header_only, complete_frame, empty_frame, separator_byte,
}
use haier_protocol.Frame.Build.{get_buffer_size, header_accounts, data_accounts}
use haier_protocol.Frame.Build
use haier_protocol.Frame.Checksums.{checksum, crc16, crc16_byte, crc_table}
use haier_protocol.Frame.Polynomial.{shifted_by, crc_table_lem}
use haier_protocol.Frame.Fill.{fill_buffer}
use haier_protocol.Frame.Parse.{parse_buffer, parse_body, parse_checksum, count_separators}
use haier_protocol.Frame.Wire.{wire, header_of, body_of}
use haier_protocol.Frame.Accounts.{make_lem, described}
use haier_protocol.Frame.FillWire.{
  IsWellFormed, get_buffer_size_lem, fill_buffer_lem, fill_buffer_wraps, make-IsWellFormed,
}
use haier_protocol.Frame.Roundtrip.{parse-make, received}
use haier_protocol.Frame.Accepted.{parse_buffer-Accepted}

abbrev data_bytes : List ℕ
data_bytes = 0xff ∷ 0x10 ∷ []

abbrev frame : HaierFrame
frame = Build.make 1 data_bytes 2 true

frame-IsWellFormed : IsWellFormed frame
frame-IsWellFormed = make-IsWellFormed 1 data_bytes true (omega arith)

frame_size : get_buffer_size frame ≡ 16
unfolding get_buffer_size Build.make header_accounts data_accounts crc16_byte crc_table
frame_size = refl

wire_small : length (wire frame) ≤ 256
wire_small = omega (arith, get_buffer_size_lem frame-IsWellFormed, frame_size)

make_lem_example : Build.make 1 data_bytes 2 true ≡ described 1 data_bytes true
make_lem_example = make_lem 1 data_bytes true (omega arith)

parse-make_example :
    let (g, pos, err) =
      parse_buffer empty_frame (separator_byte ∷ separator_byte ∷ header_of frame) in
    (err ≡ header_only) × (parse_buffer g (body_of frame) ≡ (frame, 0, complete_frame))
parse-make_example = parse-make 1 data_bytes true (omega arith)

fill_buffer_lem_example :
    (length (wire frame) ≤ 256
      → fill_buffer frame (replicate 256 0) 256
        ≡ (wire frame ++ drop (length (wire frame)) (replicate 256 0), length (wire frame)))
    × (256 < length (wire frame) → fill_buffer frame (replicate 256 0) 256 ≡ (replicate 256 0, 0))
fill_buffer_lem_example =
    fill_buffer_lem (replicate 256 0) 256 frame-IsWellFormed wire_small wire_small

-- 140 bytes 0xFF and a CRC take 293 bytes on the wire.
abbrev large_frame : HaierFrame
large_frame = Build.make 1 (replicate 140 0xff) 140 true

large_size : get_buffer_size large_frame ≡ 293
unfolding get_buffer_size Build.make header_accounts data_accounts crc16_byte crc_table
large_size = refl

fill_buffer_wraps_example :
    ((fill_buffer large_frame (replicate 300 0) 300).1 ≡ get_buffer_size large_frame)
    × ((i : ℕ)
        → 256 ≤ i
        → get_or (fill_buffer large_frame (replicate 300 0) 300).0 i 0
          ≡ get_or (replicate 300 0) i 0)
fill_buffer_wraps_example =
    fill_buffer_wraps large_frame (replicate 300 0) 300 (omega (arith, large_size))

-- A body of one byte and its sum, with another byte behind them.
abbrev read_bytes : List ℕ
read_bytes = 0x10 ∷ 0x1a ∷ 7 ∷ []

one_byte_accepted : (parse_buffer (received 1 1 false) read_bytes).2 ≡ complete_frame
unfolding parse_buffer parse_body parse_checksum count_separators checksum crc16
one_byte_accepted = refl

parse_buffer-Accepted_example :
    let f = (parse_buffer (received 1 1 false) read_bytes).0 in
    (f ≡ Build.make 1 (0x10 ∷ []) 1 false) × (take (length (body_of f)) read_bytes ≡ body_of f)
parse_buffer-Accepted_example =
    parse_buffer-Accepted 1 1 false read_bytes (omega arith)
      (omega arith, (omega arith, (omega arith, tt))) one_byte_accepted

crc_table_lem_example : get_or crc_table 255 0 ≡ shifted_by 8 255
crc_table_lem_example = crc_table_lem 255 (omega arith)
