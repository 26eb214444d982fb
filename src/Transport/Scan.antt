-- ===== src/Transport/Scan.antt =====
-- src/transport/protocol_transport.cpp, `process_data`: the loop that finds frames in the buffer.
use haier_protocol.Prelude.{
  ℕ, zero, suc, ◌+◌, ◌-◌, ◌*◌, Bool, true, false, not, ◌&&◌, ◌||◌, List, [], ◌∷◌, ◌++◌, Option,
  none, some, ltb, ◌==◌, if◌then◌else◌, size_add, size_sub,
}
use haier_protocol.Circular.{Circular, get_size, index}
use haier_protocol.Frame.Types.{
  HaierFrame, FrameStatus, frame_complete, frame_header_only, frame_empty, status_value, FrameError,
  complete_frame, header_only, empty_frame, separator_byte, separator_post_byte,
  frame_separators_count, frame_header_size,
}
use haier_protocol.Frame.Parse.{parse_buffer}
use haier_protocol.Transport.State.{Transport, drop_bytes, rescan}

-- `FRAME_TIMEOUT` in milliseconds
abbrev pub frame_timeout : ℕ
frame_timeout = 300

-- the handler with the two local variables of the loop
pub record Scan : Type 0 where
  pub handler : Transport
  pub open handler use {buffer, pos, sep_count, frame_start_found, current_frame}
  pub buf_size : ℕ
  pub bytes_to_drop : ℕ

abbrev pub at_pos : Transport → ℕ → Transport
at_pos t pos = record t { pos = pos }

-- `this->pos_++`
abbrev pub advance : Scan → Scan
advance s = record s { handler = at_pos s.handler (size_add s.pos 1) }

-- The search for the beginning of a packet, at the byte at `pos_`.
unfoldable pub hunt : Scan → Scan
hunt s =
    if index s.buffer s.pos == separator_byte
    then (if ltb frame_separators_count (size_sub (size_add s.pos 1) s.bytes_to_drop)
        then record s { bytes_to_drop = size_sub (size_add s.pos 1) frame_separators_count }
        else s)
    else (if size_sub s.pos s.bytes_to_drop == frame_separators_count
        then (let t = record s.handler { frame_start_found = true } in
            if ltb 0 s.bytes_to_drop
            then record s {
              handler = at_pos (drop_bytes t s.bytes_to_drop) (size_sub t.pos s.bytes_to_drop);
              buf_size = size_sub s.buf_size s.bytes_to_drop;
              bytes_to_drop = 0;
            }
            else record s { handler = t })
        else record s { bytes_to_drop = size_add s.pos 1 })

-- The loop that takes the post bytes out, for `n` rounds from `bPos` on: whether every post byte was
-- right, the bytes copied, and `bPos` at the end. That of a header starts at 3, where the first test
-- is idle.
unfoldable pub unescape_loop : Circular → ℕ → ℕ → Bool × List ℕ × ℕ
unescape_loop c zero b_pos = (true, [], b_pos)
unescape_loop c (suc n) b_pos =
    let (correct, bytes, end) = unescape_loop c n (b_pos + 1) in
    if b_pos == 0 || not (index c (b_pos - 1) == separator_byte)
    then (correct, index c b_pos ∷ bytes, end)
    else (if not (index c b_pos == separator_post_byte)
        then (false, [], b_pos)
        else (correct, bytes, end))

-- A post byte is wrong: what comes before it is dropped, and the search starts anew.
abbrev pub drop_wrong : Scan → ℕ → Scan
drop_wrong s b_pos =
    let t = rescan (drop_bytes s.handler (size_sub b_pos 1)) in
    record s { handler = t; buf_size = get_size t.buffer }

-- An error in the header ends the frame.
unfoldable pub after_header : FrameError → Transport → Transport
after_header header_only t = t
after_header _ t = record t { current_frame = empty_frame; frame_start_found = false }

-- A whole header is there.
unfoldable pub take_header : Scan → Scan
take_header s =
    let c = s.buffer in
    let (correct, bytes, b_pos) = unescape_loop c (s.pos + 1 - 3) 3 in
    if correct
    then (let t = drop_bytes s.handler b_pos in
        let header = index c 0 ∷ index c 1 ∷ index c 2 ∷ bytes in
        let (frame, _, err) = parse_buffer t.current_frame header in
        let t = record t { pos = 0; sep_count = 0; current_frame = frame } in
        record s {
          handler = after_header err t;
          buf_size = size_sub s.buf_size (size_add s.pos 1);
        })
    else drop_wrong s b_pos

-- A complete frame goes to the queue.
unfoldable pub after_body : FrameError → HaierFrame → Transport → Transport
after_body complete_frame frame t = record t {
  incoming_queue = t.incoming_queue ++ record { frame = frame; timestamp = t.frame_start } ∷ [];
}
after_body _ frame t = t

-- All of a frame's data and trailer are there.
unfoldable pub take_body : Scan → Scan
take_body s =
    let (correct, bytes, b_pos) = unescape_loop s.buffer (s.pos + 1) 0 in
    if correct
    then (let t = drop_bytes s.handler b_pos in
        let (frame, _, err) = parse_buffer t.current_frame bytes in
        let t = rescan (after_body err frame t) in
        record s { handler = t; buf_size = get_size t.buffer })
    else drop_wrong s b_pos

-- The `switch` on the state of the current frame. A `continue` leaves `pos_` as it is.
abbrev pub in_status : FrameStatus → Scan → Scan
in_status frame_empty s =
    if size_sub (size_add s.pos 1) s.sep_count == frame_header_size
    then take_header s
    else advance s
in_status frame_header_only s =
    if size_sub (size_add s.pos 1) s.sep_count
      == s.current_frame.data_size + (if s.current_frame.use_crc then 3 else 1)
    then take_body s
    else advance s
in_status frame_complete s = record s {
  handler = record s.handler { current_frame = empty_frame; frame_start_found = false };
}

-- the separators after the start of the frame, counted
abbrev pub count_separator : Scan → Scan
count_separator s = record s {
  handler = record s.handler {
    sep_count =
        if index s.buffer s.pos == separator_byte then size_add s.sep_count 1 else s.sep_count;
  };
}

-- the rest of a round where the start of a frame was found
unfoldable pub in_frame : Scan → Scan
unfolding take_header take_body
in_frame s = in_status s.current_frame.status (count_separator s)

-- one round of the `while` loop
unfoldable pub round : Scan → Scan
unfolding hunt in_frame
round s = if s.frame_start_found then in_frame s else advance (hunt s)

-- The loop. `none` means that the fuel ran out.
unfoldable pub scan : ℕ → Scan → Option Scan
unfolding round
scan zero s = none
scan (suc fuel) s = let rest = scan fuel (round s) in if ltb s.pos s.buf_size then rest else some s

-- A round that does not go on to the next byte drops bytes, or gives up a header.
abbrev pub scan_fuel : ℕ → ℕ
scan_fuel size = (size + 2) * (size + 1) + 1

-- The garbage that the search has passed over is dropped at the end.
abbrev pub finish : Scan → Transport
finish s =
    if ltb 0 s.bytes_to_drop
    then at_pos (drop_bytes s.handler s.bytes_to_drop) (size_sub s.pos s.bytes_to_drop)
    else s.handler

-- The test for a timeout. `FRAME_EMPTY` is the last enumerator, so that the first half never holds.
unfoldable pub expire : ℕ → Transport → Transport
expire now t =
    if ltb (status_value frame_empty) (status_value t.current_frame.status)
      && ltb frame_timeout (now - t.frame_start)
    then rescan (drop_bytes t t.pos)
    else t

unfoldable pub scan_all : Transport → Option Transport
unfolding scan
scan_all t =
    let size = get_size t.buffer in
    elim (scan (scan_fuel size) (record { handler = t; buf_size = size; bytes_to_drop = 0 })) [
      | none ↦ none
      | some s ↦ some (finish s)
    ]

-- `process_data` at the time `now`
unfoldable pub process_data : ℕ → Transport → Option Transport
unfolding expire scan_all
process_data now t = let t = expire now t in if t.buffer.is_empty then some t else scan_all t
