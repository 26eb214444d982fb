-- ===== src/Transport/Decode.antt =====
-- protocol_transport.cpp, `process_data` on the bytes of a frame: the header, the body, the queue.
use haier_protocol.Prelude.{
  ℕ, zero, suc, ◌+◌, ◌-◌, ◌*◌, ◌%◌, ◌/◌, ◌≤◌, ◌<◌, ◌≡◌, ◌≢◌, ◌⊎◌, inl, inr, refl, sym, ap, ap₂,
  subst, ◌∙◌, Bool, true, false, List, [], ◌∷◌, ◌++◌, append-nil, append_assoc, arith, length,
  length-append, Option, none, some, ltb, ◌==◌, ==-false, if◌then◌else◌, size_add, size_sub,
  size_mod, u8, drop-append_self, min, Bool-cases,
}
use haier_protocol.Prelude
use haier_protocol.Circular.{Circular, IsValid, get_size, index}
use haier_protocol.Circular
use haier_protocol.Circular.Contents.{contents, length-contents}
use haier_protocol.Circular.Remove.{drop_lem}
use haier_protocol.Frame.Types.{
  HaierFrame, FrameError, header_only, complete_frame, empty_frame, frame_header_size,
}
use haier_protocol.Frame.Parse.{parse_buffer}
use haier_protocol.Transport.State.{Transport, TimestampedFrame, drop_bytes, rescan}
use haier_protocol.Transport.Scan.{
  Scan, take_header, take_body, after_header, after_body, unescape_loop,
}

-- The loop in front of a new frame.
abbrev pub idle : Circular → ℕ → List TimestampedFrame → Scan
idle c start queue = record {
  handler = record {
    buffer = c;
    pos = 0;
    sep_count = 0;
    frame_start_found = false;
    current_frame = empty_frame;
    frame_start = start;
    incoming_queue = queue;
  };
  buf_size = get_size c;
  bytes_to_drop = 0;
}

-- The loop within a frame, of which `g` is known.
abbrev pub reading : Circular → HaierFrame → ℕ → List TimestampedFrame → Scan
reading c g start queue =
    let s = idle c start queue in
    record s { handler = record s.handler { frame_start_found = true; current_frame = g } }

pub take_header_lem :
    (s : Scan) (bytes : List ℕ) (end : ℕ) (g : HaierFrame)
    → unescape_loop s.buffer (s.pos + 1 - 3) 3 ≡ (true, bytes, end)
    → parse_buffer s.current_frame (index s.buffer 0 ∷ index s.buffer 1 ∷ index s.buffer 2 ∷ bytes)
      ≡ (g, frame_header_size, header_only)
    → take_header s ≡ record s {
      handler = record (drop_bytes s.handler end) { pos = 0; sep_count = 0; current_frame = g };
      buf_size = size_sub s.buf_size (size_add s.pos 1);
    }
unfolding take_header after_header
take_header_lem s bytes end g e1 e2 = rw (e1, e2) refl

pub take_body_lem :
    (s : Scan) (bytes : List ℕ) (end : ℕ) (f : HaierFrame)
    → unescape_loop s.buffer (s.pos + 1) 0 ≡ (true, bytes, end)
    → parse_buffer s.current_frame bytes ≡ (f, 0, complete_frame)
    → take_body s ≡ (
        let t = rescan (record (drop_bytes s.handler end) {
          incoming_queue =
              s.handler.incoming_queue
              ++ record { frame = f; timestamp = s.handler.frame_start } ∷ [];
        }) in
        record s { handler = t; buf_size = get_size t.buffer })
unfolding take_body after_body
take_body_lem s bytes end f e1 e2 = rw (e1, e2) refl

after_body_refused :
    (err : FrameError) (f : HaierFrame) (t : Transport)
    → err ≢ complete_frame
    → after_body err f t ≡ t
unfolding after_body
after_body_refused err f t h = ground (arith, h)

pub take_body_refused :
    (s : Scan) (bytes : List ℕ) (end : ℕ)
    → unescape_loop s.buffer (s.pos + 1) 0 ≡ (true, bytes, end)
    → (parse_buffer s.current_frame bytes).2 ≢ complete_frame
    → take_body s ≡ (
        let t = rescan (drop_bytes s.handler end) in
        record s { handler = t; buf_size = get_size t.buffer })
unfolding take_body
take_body_refused s bytes end e refused =
    let (frame, _, err) = parse_buffer s.current_frame bytes in
    rw e (
      ap (λ t. record s { handler = rescan t; buf_size = get_size t.buffer })
        (after_body_refused err frame (drop_bytes s.handler end) refused))

-- What is left when the bytes in front are dropped.
pub drop_front :
    {c : Circular} (front rest : List ℕ)
    → IsValid c
    → contents c ≡ front ++ rest
    → let d = (Circular.drop c (length front)).0 in
      IsValid d
      × (contents d ≡ rest)
      × (get_size d ≡ get_size c - length front)
      × (length front ≤ get_size c)
drop_front {c} front rest v e =
    let (n, d) = drop_lem (length front) v in
    let size : get_size c ≡ length front + length rest =
      sym (length-contents c) ∙ (ap length e ∙ length-append front rest) in
    let all : (Circular.drop c (length front)).1 ≡ length front = n ∙ omega arith in
    (
      d.valid,
      d.bytes ∙ (ap₂ Prelude.drop all e ∙ drop-append_self front rest),
      d.size ∙ ap (λ k. get_size c - k) all,
      omega arith,
    )
