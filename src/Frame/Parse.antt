-- ===== src/Frame/Parse.antt =====
-- src/transport/haier_frame.cpp, `parse_buffer`.
use Prim.Native.Nat.{bit_and}
use haier_protocol.Prelude.{
  ℕ, zero, suc, ◌+◌, ◌-◌, ◌*◌, ◌%◌, Bool, true, not, List, [], ◌∷◌, length, get_or, take, drop, ltb,
  ◌==◌, if◌then◌else◌, u8, u16, size_sub,
}
use haier_protocol.Frame.Types.{
  HaierFrame, FrameStatus, frame_complete, frame_header_only, frame_empty, FrameError,
  complete_frame, header_only, frame_separator_wrong, header_too_small, frame_too_big,
  frame_too_small, data_size_wrong, checksum_wrong, crc_wrong, unknown_data, max_frame_size,
  frame_header_size, separator_byte, separator_post_byte, frame_separators_count, pure_header_size,
  use_crc_mask, header_size_pos, header_crc_flag_pos, header_frame_type_pos, initial_crc,
}
use haier_protocol.Frame.Checksums.{crc16_byte, crc16, checksum}

-- The frame afterwards, the position returned, and `err`.
abbrev pub Parsed : Type 0
Parsed = HaierFrame × ℕ × FrameError

-- the local variables of the header loop, with the member that it writes
pub record HeaderLocals : Type 0 where
  pub fsize : ℕ
  pub use_crc : Bool
  pub frame_type : ℕ
  pub chk : ℕ
  pub crc : ℕ
  pub additional_bytes : ℕ

-- the `switch` of the loop
unfoldable pub header_field : ℕ → ℕ → HeaderLocals → HeaderLocals
header_field lpos byte s =
    if lpos == header_size_pos
    then record s { fsize = byte }
    else (if lpos == header_crc_flag_pos
        then (let crc_on = not (bit_and byte use_crc_mask == 0) in
            record s { use_crc = crc_on; crc = if crc_on then s.crc else initial_crc })
        else (if lpos == header_frame_type_pos
            then record s {
              frame_type = byte;
              additional_bytes = if byte == separator_byte then 1 else 0;
            }
            else s))

unfoldable pub header_step : ℕ → ℕ → HeaderLocals → HeaderLocals
unfolding header_field checksum
header_step lpos byte s =
    let s = header_field lpos byte s in
    record s {
      chk = checksum (byte ∷ []) s.chk;
      crc = if s.use_crc then crc16_byte byte s.crc else s.crc;
    }

-- the `while` loop, for the rounds that are left
unfoldable pub header_loop : ℕ → ℕ → List ℕ → HeaderLocals → HeaderLocals
unfolding header_step
header_loop zero lpos buffer s = s
header_loop (suc n) lpos buffer s =
    header_loop n (lpos + 1) buffer (header_step lpos (get_or buffer lpos 0) s)

abbrev pub header_locals : HaierFrame → HeaderLocals
header_locals f = record {
  fsize = 0;
  use_crc = true;
  frame_type = 0;
  chk = 0;
  crc = initial_crc;
  additional_bytes = f.additional_bytes;
}

-- the header as the loop leaves it, once its size field was found good
abbrev pub header_frame : HaierFrame → HeaderLocals → HaierFrame
header_frame f s = record f {
  frame_type = s.frame_type;
  use_crc = s.use_crc;
  data_size = s.fsize - pure_header_size;
  checksum = s.chk;
  crc = s.crc;
  status = frame_header_only;
  additional_bytes = s.additional_bytes;
}

unfoldable pub count_separators : List ℕ → ℕ → ℕ
count_separators [] n = n
count_separators (b ∷ bs) n = count_separators bs (if b == separator_byte then u8 (n + 1) else n)

-- `min_size`, a `uint8_t`
abbrev pub trailer_size : HaierFrame → ℕ
trailer_size f = u8 (f.data_size + (if f.use_crc then 3 else 1))

-- The last part, from the checksum on: `crc` is the new value and `rpos` the checksum's position.
unfoldable pub parse_checksum : HaierFrame → List ℕ → ℕ → ℕ → ℕ → Parsed
parse_checksum f buffer lpos crc rpos =
    let payload = take f.data_size (drop lpos buffer) in
    let chk = u8 (checksum payload f.checksum + f.additional_bytes * separator_post_byte % 256) in
    if chk == get_or buffer rpos 0
    then (
      record f { crc = crc; checksum = chk; status = frame_complete; bytes = payload },
      lpos,
      complete_frame,
    )
    else (f, lpos, checksum_wrong)

-- The part for a frame whose header is there. As the source has it, the data starts at `lpos` for
-- the checksum and the copy, and at 0 for the separators, the CRC and the two trailers.
unfoldable pub parse_body : HaierFrame → List ℕ → ℕ → Parsed
unfolding count_separators parse_checksum
parse_body f buffer lpos =
    let min_size = trailer_size f in
    if ltb (size_sub (length buffer) lpos) min_size
    then (f, lpos, data_size_wrong)
    else (let rpos = min_size - 1 in
        let f = record f {
          additional_bytes = count_separators (take f.data_size buffer) f.additional_bytes;
        } in
        if f.use_crc
        then (let frame_crc = u16 (get_or buffer rpos 0 + get_or buffer (rpos - 1) 0 * 256) in
            let crc = crc16 (take f.data_size buffer) f.crc in
            if crc == frame_crc
            then parse_checksum f buffer lpos crc (rpos - 2)
            else (f, lpos, crc_wrong))
        else parse_checksum f buffer lpos initial_crc rpos)

-- What follows the header loop. A header that fills the buffer is the result; the data may follow.
unfoldable pub accept_header : HaierFrame → List ℕ → HeaderLocals → Parsed
unfolding parse_body
accept_header f buffer s =
    let touched = record f { additional_bytes = s.additional_bytes } in
    if ltb s.fsize pure_header_size
    then (touched, frame_header_size, frame_too_small)
    else (if ltb max_frame_size s.fsize
        then (touched, frame_header_size, frame_too_big)
        else (if frame_header_size == length buffer
            then (header_frame f s, frame_header_size, header_only)
            else parse_body (header_frame f s) buffer frame_header_size))

-- the part for an empty frame
unfoldable pub parse_header : HaierFrame → List ℕ → Parsed
unfolding header_loop accept_header
parse_header f buffer =
    if ltb (length buffer) frame_header_size
    then (f, 0, header_too_small)
    else (if not (get_or buffer 0 0 == separator_byte)
        then (f, 0, frame_separator_wrong)
        else (if not (get_or buffer 1 0 == separator_byte)
            then (f, 0, frame_separator_wrong)
            else accept_header f buffer
                (header_loop 8 frame_separators_count buffer (header_locals f))))

abbrev pub parse_in : FrameStatus → HaierFrame → List ℕ → Parsed
parse_in frame_complete f buffer = (f, 0, unknown_data)
parse_in frame_empty f buffer = parse_header f buffer
parse_in frame_header_only f buffer = parse_body f buffer 0

-- `parse_buffer`: the list is the whole buffer, so `size` is its length.
unfoldable pub parse_buffer : HaierFrame → List ℕ → Parsed
unfolding parse_header parse_body
parse_buffer f buffer = parse_in f.status f buffer
