-- ===== src/Transport/Parts.antt =====
-- protocol_transport.cpp, `process_data` on the header and the body of a frame.
use haier_protocol.Prelude.{
  ℕ, ◌+◌, ◌-◌, ◌≡◌, ◌≢◌, inl, inr, refl, sym, ap, ap₂, ◌∙◌, true, List, [], ◌∷◌, ◌++◌, arith,
  length, length-append, if◌then◌else◌, size_add, size_sub,
}
use haier_protocol.Circular.{Circular, IsValid, get_size, index}
use haier_protocol.Circular
use haier_protocol.Circular.Validity.{get_size-le}
use haier_protocol.Circular.Contents.{contents}
use haier_protocol.Frame.Types.{
  HaierFrame, frame_header_only, header_only, complete_frame, empty_frame, frame_header_size,
  separator_byte,
}
use haier_protocol.Frame.Parse.{parse_buffer}
use haier_protocol.Frame.Wire.{escape, separators, length-escape}
use haier_protocol.Transport.State.{TimestampedFrame}
use haier_protocol.Transport.Scan.{take_body, scan, unescape_loop}
use haier_protocol.Transport.Unescape.{Holds, Holds-contents, unescape_loop-escape}
use haier_protocol.Transport.Walk.{at, target, taking, walk}
use haier_protocol.Transport.Decode.{
  idle, reading, take_header_lem, take_body_lem, take_body_refused, drop_front,
}

-- Over a body, to the point where it is taken.
body_reached :
    (c : Circular) (g : HaierFrame) (ys : List ℕ) (y : ℕ) (rest : List ℕ) (start : ℕ)
    (queue : List TimestampedFrame) (fuel : ℕ)
    → IsValid c
    → contents c ≡ escape (ys ++ y ∷ []) ++ rest
    → g.status ≡ frame_header_only
    → g.data_size + (if g.use_crc then 3 else 1) ≡ length (ys ++ y ∷ [])
    → let part = escape (ys ++ y ∷ []) in
      let last = at (reading c g start queue) (length part - 1) (separators (ys ++ y ∷ [])) in
      (unescape_loop c (last.pos + 1) 0 ≡ (true, ys ++ y ∷ [], length part))
      × (scan (length part + fuel) (reading c g start queue) ≡ scan fuel (take_body last))
body_reached c g ys y rest start queue fuel v e st all =
    let part = escape (ys ++ y ∷ []) in
    let (_, _, _, le) = drop_front part rest v e in
    let held : Holds c 0 part = Holds-contents [] part rest v e in
    let s = reading c g start queue in
    let full : length part ≡ length (ys ++ y ∷ []) + separators (ys ++ y ∷ []) =
      length-escape (ys ++ y ∷ []) in
    let some_bytes = length-append ys (y ∷ []) in
    let need : 0 - 0 + length (ys ++ y ∷ []) ≡ target g.status g =
      omega arith ∙ (sym all ∙ sym (ap (λ st. target st g) st)) in
    let last = at s (length part - 1) (separators (ys ++ y ∷ [])) in
    (
      ap (λ n. unescape_loop c n 0) {y = length part} (omega arith)
          ∙ (unescape_loop-escape c 0 (ys ++ y ∷ []) held (inl refl)
              ∙ ap (λ k. (true, ys ++ y ∷ [], k)) (omega arith)),
      walk s refl (λ h. cc) (omega (arith, get_size-le v, v.small, v.large)) ys y 0 0 fuel held
            (omega arith) (omega arith) need
          ∙ ap₂ (λ p k. scan fuel (taking g.status (at s p k))) (omega arith) (omega arith)
          ∙ ap (λ st. scan fuel (taking st last)) st,
    )

pub body_taken :
    (c : Circular) (g f : HaierFrame) (ys : List ℕ) (y : ℕ) (rest : List ℕ) (start : ℕ)
    (queue : List TimestampedFrame) (fuel : ℕ)
    → IsValid c
    → contents c ≡ escape (ys ++ y ∷ []) ++ rest
    → g.status ≡ frame_header_only
    → g.data_size + (if g.use_crc then 3 else 1) ≡ length (ys ++ y ∷ [])
    → parse_buffer g (ys ++ y ∷ []) ≡ (f, 0, complete_frame)
    → let d = (Circular.drop c (length (escape (ys ++ y ∷ [])))).0 in
      IsValid d
      × (contents d ≡ rest)
      × (scan (length (escape (ys ++ y ∷ [])) + fuel) (reading c g start queue)
          ≡ scan fuel (idle d start (queue ++ record { frame = f; timestamp = start } ∷ [])))
body_taken c g f ys y rest start queue fuel v e st all parsed =
    let part = escape (ys ++ y ∷ []) in
    let (valid, left, _, _) = drop_front part rest v e in
    let (unescaped, reached) = body_reached c g ys y rest start queue fuel v e st all in
    (
      valid,
      left,
      reached
          ∙ ap (scan fuel) (
              take_body_lem
                (at (reading c g start queue) (length part - 1) (separators (ys ++ y ∷ [])))
                (ys ++ y ∷ []) (length part) f unescaped parsed),
    )

-- A body that does not make the frame complete is dropped.
pub body_refused :
    (c : Circular) (g : HaierFrame) (ys : List ℕ) (y : ℕ) (rest : List ℕ) (start : ℕ)
    (queue : List TimestampedFrame) (fuel : ℕ)
    → IsValid c
    → contents c ≡ escape (ys ++ y ∷ []) ++ rest
    → g.status ≡ frame_header_only
    → g.data_size + (if g.use_crc then 3 else 1) ≡ length (ys ++ y ∷ [])
    → (parse_buffer g (ys ++ y ∷ [])).2 ≢ complete_frame
    → let d = (Circular.drop c (length (escape (ys ++ y ∷ [])))).0 in
      IsValid d
      × (contents d ≡ rest)
      × (scan (length (escape (ys ++ y ∷ [])) + fuel) (reading c g start queue)
          ≡ scan fuel (idle d start queue))
body_refused c g ys y rest start queue fuel v e st all refused =
    let part = escape (ys ++ y ∷ []) in
    let (valid, left, _, _) = drop_front part rest v e in
    let (unescaped, reached) = body_reached c g ys y rest start queue fuel v e st all in
    (
      valid,
      left,
      reached
          ∙ ap (scan fuel) (
              take_body_refused
                (at (reading c g start queue) (length part - 1) (separators (ys ++ y ∷ [])))
                (ys ++ y ∷ []) (length part) unescaped refused),
    )

-- The rest of a header, once its first three bytes are passed.
pub header_read :
    (c : Circular) (g : HaierFrame) (x : ℕ) (ys : List ℕ) (y : ℕ) (rest : List ℕ) (start : ℕ)
    (queue : List TimestampedFrame) (fuel : ℕ)
    → IsValid c
    → let front = separator_byte ∷ separator_byte ∷ x ∷ escape (ys ++ y ∷ []) in
      contents c ≡ front ++ rest
      → x ≢ separator_byte
      → length (ys ++ y ∷ []) ≡ 7
      → parse_buffer empty_frame (separator_byte ∷ separator_byte ∷ x ∷ (ys ++ y ∷ []))
        ≡ (g, frame_header_size, header_only)
      → let d = (Circular.drop c (length front)).0 in
        IsValid d
        × (contents d ≡ rest)
        × (scan (length (escape (ys ++ y ∷ [])) + fuel) (at (reading c empty_frame start queue) 3 0)
            ≡ scan fuel (reading d g start queue))
header_read c g x ys y rest start queue fuel v e other seven parsed =
    let part = escape (ys ++ y ∷ []) in
    let front = separator_byte ∷ separator_byte ∷ x ∷ part in
    let (valid, left, count, le) = drop_front front rest v e in
    let held = Holds-contents [] front rest v e in
    let (h0, (h1, (h2, tail))) = held in
    let s = reading c empty_frame start queue in
    let full : length part ≡ length (ys ++ y ∷ []) + separators (ys ++ y ∷ []) =
      length-escape (ys ++ y ∷ []) in
    let cap = get_size-le v in
    let last = at s (3 + length part - 1) (0 + separators (ys ++ y ∷ [])) in
    let unescaped : unescape_loop c (last.pos + 1 - 3) 3 ≡ (true, ys ++ y ∷ [], length front) =
      ap (λ n. unescape_loop c n 3) {y = length part} (omega arith)
      ∙ (unescape_loop-escape c 3 (ys ++ y ∷ []) tail (inr (λ k. other (sym h2 ∙ k)))
          ∙ ap (λ k. (true, ys ++ y ∷ [], k)) {y = length front} (omega arith)) in
    let header : parse_buffer empty_frame (index c 0 ∷ index c 1 ∷ index c 2 ∷ (ys ++ y ∷ []))
        ≡ (g, frame_header_size, header_only) =
      ap₂ (λ a b. parse_buffer empty_frame (a ∷ b ∷ index c 2 ∷ (ys ++ y ∷ []))) h0 h1
      ∙ (ap (λ b. parse_buffer empty_frame (separator_byte ∷ separator_byte ∷ b ∷ (ys ++ y ∷ [])))
            h2
          ∙ parsed) in
    let d = (Circular.drop c (length front)).0 in
    let left_size : size_sub (get_size c) (size_add last.pos 1) ≡ get_size d =
      omega (arith, v.small, v.large) in
    (
      valid,
      left,
      walk s refl (λ h. cc) (omega (arith, v.small, v.large)) ys y 3 0 fuel tail (omega arith)
            (omega arith) (omega arith)
          ∙ ap (scan fuel) (
              take_header_lem last (ys ++ y ∷ []) (length front) g unescaped header
              ∙ ap (λ n. record (reading d g start queue) { buf_size = n }) left_size),
    )
