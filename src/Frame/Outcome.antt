-- ===== src/Frame/Outcome.antt =====
-- Which frame goes with which error after `parse_buffer` of haier_frame.cpp.
use haier_protocol.Prelude.{
  ℕ, ◌≡◌, ◌≢◌, refl, List, arith, Bool-cases, inl, inr, length, get_or, ltb, ◌==◌,
}
use haier_protocol.Frame.Types.{
  HaierFrame, FrameStatus, frame_complete, frame_header_only, frame_empty, complete_frame,
  header_only, frame_header_size, separator_byte, frame_separators_count,
}
use haier_protocol.Frame.Parse.{
  Parsed, HeaderLocals, parse_checksum, parse_body, accept_header, parse_header, parse_in,
  parse_buffer, header_loop, header_locals,
}

-- The error tells the status: a frame is complete exactly if the error says so, and where it says
-- that only a header came, the header is in.
abbrev pub Tells : Parsed → Type 0
Tells (f, _, err) =
    (err ≡ complete_frame → f.status ≡ frame_complete)
    × (f.status ≡ frame_complete → err ≡ complete_frame)
    × (err ≡ header_only → f.status ≡ frame_header_only)

parse_checksum-Tells :
    (f : HaierFrame) (buffer : List ℕ) (lpos crc rpos : ℕ)
    → f.status ≢ frame_complete
    → Tells (parse_checksum f buffer lpos crc rpos)
unfolding parse_checksum
parse_checksum-Tells f buffer lpos crc rpos h = ground arith

pub parse_body-Tells :
    (f : HaierFrame) (buffer : List ℕ) (lpos : ℕ)
    → f.status ≢ frame_complete
    → Tells (parse_body f buffer lpos)
unfolding parse_body
parse_body-Tells f buffer lpos h = ground arith

accept_header-Tells :
    (f : HaierFrame) (buffer : List ℕ) (s : HeaderLocals)
    → f.status ≢ frame_complete
    → Tells (accept_header f buffer s)
unfolding accept_header
accept_header-Tells f buffer s h = ground arith

parse_header-Tells :
    (f : HaierFrame) (buffer : List ℕ) → f.status ≢ frame_complete → Tells (parse_header f buffer)
unfolding parse_header
parse_header-Tells f buffer h = elim (Bool-cases (ltb (length buffer) frame_header_size)) [
  | inl short ↦ rw short (λ e. cc, λ e. absurd (h e), λ e. cc)
  | inr long ↦ elim (Bool-cases (get_or buffer 0 0 == separator_byte)) [
    | inr wrong ↦ rw (long, wrong) (λ e. cc, λ e. absurd (h e), λ e. cc)
    | inl first ↦ elim (Bool-cases (get_or buffer 1 0 == separator_byte)) [
      | inr wrong ↦ rw (long, first, wrong) (λ e. cc, λ e. absurd (h e), λ e. cc)
      | inl second ↦
          rw (long, first, second)
            (accept_header-Tells f buffer
              (header_loop 8 frame_separators_count buffer (header_locals f)) h)
    ]
  ]
]

parse_in-Tells :
    (s : FrameStatus) (f : HaierFrame) (buffer : List ℕ)
    → f.status ≢ frame_complete
    → s ≢ frame_complete
    → Tells (parse_in s f buffer)
parse_in-Tells frame_complete f buffer h k = absurd (k refl)
parse_in-Tells frame_empty f buffer h k = parse_header-Tells f buffer h
parse_in-Tells frame_header_only f buffer h k = parse_body-Tells f buffer 0 h

-- On a frame that is not complete, and any bytes, `parse_buffer` tells by its error what has become of
-- it: the frame is complete afterwards just where the error is `COMPLETE_FRAME`, and has its header
-- and no more where the error is `HEADER_ONLY`.
pub parse_buffer-Tells :
    (f : HaierFrame) (buffer : List ℕ) → f.status ≢ frame_complete → Tells (parse_buffer f buffer)
unfolding parse_buffer
parse_buffer-Tells f buffer h = parse_in-Tells f.status f buffer h h
