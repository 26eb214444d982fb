-- ===== src/Transport/Frames.antt =====
-- protocol_transport.cpp, `process_data` as a whole on what a line carries.
use haier_protocol.Prelude.{
  ℕ, ◌+◌, ◌-◌, ◌≤◌, ◌<◌, ◌≡◌, refl, sym, ap, ap₂, ◌∙◌, List, [], ◌∷◌, ◌++◌, append-nil, map, arith,
  length, length-append, length-replicate, none, some, if◌then◌else◌, if-both, ltb, ltb-false,
  Bool-cases, inl, inr, All, replicate, size_sub, size_mod, empty-length,
}
use haier_protocol.Prelude
use haier_protocol.Circular.{Circular, IsValid, get_size}
use haier_protocol.Circular.Validity.{is_empty_iff_size, get_size-le}
use haier_protocol.Circular.Contents.{contents, length-contents}
use haier_protocol.Circular.Remove.{drop_lem}
use haier_protocol.Frame.Types.{HaierFrame, separator_byte}
use haier_protocol.Frame.Wire.{wire, wire-le}
use haier_protocol.Transport.State.{Transport, rescan}
use haier_protocol.Transport.Scan.{scan, scan_fuel, scan_all, finish, process_data, at_pos}
use haier_protocol.Transport.Total.{expire_never, scan_stops}
use haier_protocol.Transport.Unescape.{Holds-contents}
use haier_protocol.Transport.Decode.{idle}
use haier_protocol.Transport.Noise.{IsNoise, trailing, trailing-length, drop-trailing}
use haier_protocol.Transport.Search.{hunting, hunt_noise}
use haier_protocol.Transport.Taken.{IsSent, stamped, wires, framed}
use haier_protocol.Transport.Line.{
  Piece, sent, spoiled, on_line, line, frames_of, IsPiece, pieces_passed,
}

-- A handler at rest waits for the start of a frame: a reset does not change it.
abbrev pub AtRest : Transport → Type 0
AtRest t = rescan t ≡ t

-- The frames `fs` have been queued, and the handler `t'` waits for the start of a frame, of which it
-- holds `k` bytes 0xFF, all that is in its buffer.
pub record Recovers (t t' : Transport) (fs : List HaierFrame) (k : ℕ) : Type 0 where
  pub queue : t'.incoming_queue ≡ t.incoming_queue ++ map (stamped t.frame_start) fs
  pub held : contents t'.buffer ≡ replicate k separator_byte
  pub valid : IsValid t'.buffer
  pub looked : t'.pos ≡ k
  pub waits : rescan t' ≡ record t' { pos = 0 }

fuel_left : (size : ℕ) → size < scan_fuel size
fuel_left size = grind arith

-- The end of the loop, behind noise: what cannot begin a frame is dropped.
finish-Recovers :
    (t : Transport) (fs : List HaierFrame) (tail : List ℕ) (d : Circular)
    → IsValid d
    → contents d ≡ tail
    → Recovers t
        (finish (
          hunting d t.frame_start
            (t.incoming_queue ++ map (stamped t.frame_start) fs)
            (length tail)
            (trailing 0 tail)))
        fs
        (trailing 0 tail)
finish-Recovers t fs tail d v e =
    let queue = t.incoming_queue ++ map (stamped t.frame_start) fs in
    let k = trailing 0 tail in
    let n = length tail - k in
    let h = (hunting d t.frame_start queue (length tail) k).handler in
    let le = trailing-length tail 0 in
    let size : get_size d ≡ length tail = sym (length-contents d) ∙ ap length e in
    let cap = get_size-le v in
    let kept : Prelude.drop n tail ≡ replicate k separator_byte =
      ap (λ m. Prelude.drop m tail) (omega arith) ∙ drop-trailing tail 0 (omega arith) in
    let (count, drops) = drop_lem n v in
    if-both (λ t'. Recovers t t' fs k) (ltb 0 n)
      (λ _. record {
        queue = refl;
        held = drops.bytes ∙ ap₂ Prelude.drop (count ∙ omega arith) e ∙ kept;
        valid = drops.valid;
        looked = omega (arith, v.small, v.large);
        waits = refl;
      })
      (λ none_passed.
        let zero_passed : n ≡ 0 = ground (arith, none_passed) in
        record {
          queue = refl;
          held = e ∙ ap (λ m. Prelude.drop m tail) (sym zero_passed) ∙ kept;
          valid = v;
          looked = omega arith;
          waits = refl;
        })

scan_line :
    (t : Transport) (ps : List Piece) (tail : List ℕ)
    → AtRest t
    → IsValid t.buffer
    → All IsPiece ps
    → IsNoise tail
    → contents t.buffer ≡ line ps ++ tail
    → (t' : Transport) × (scan_all t ≡ some t') × Recovers t t' (frames_of ps) (trailing 0 tail)
unfolding scan_all
scan_line t ps tail rest v pieces quiet e =
    let start = t.frame_start in
    let queue = t.incoming_queue ++ map (stamped start) (frames_of ps) in
    let (d, w, left, run) = pieces_passed ps tail t.buffer start t.incoming_queue pieces v e in
    let size = get_size t.buffer in
    let fits : size ≡ length (line ps) + length tail =
      sym (length-contents t.buffer) ∙ (ap length e ∙ length-append (line ps) tail) in
    let size_left : get_size d ≡ length tail = sym (length-contents d) ∙ ap length left in
    let k = trailing 0 tail in
    let end = hunting d start queue (length tail) k in
    let fuel = scan_fuel size - size in
    let some_fuel = fuel_left size in
    let held = Holds-contents [] tail [] w (left ∙ sym (append-nil tail)) in
    let ends : scan (scan_fuel size) (idle t.buffer start t.incoming_queue) ≡ some end =
      ap (λ n. scan n (idle t.buffer start t.incoming_queue))
        {y = length (line ps) + (length tail + fuel)} (omega arith)
      ∙ run (length tail + fuel)
      ∙ hunt_noise d start queue tail 0 0 fuel held (omega arith)
          (omega (arith, get_size-le w, w.small, w.large)) (omega arith) (omega arith) quiet
      ∙ ap (λ p. scan fuel (hunting d start queue p k)) {y = length tail} (omega arith)
      ∙ scan_stops fuel end (omega arith) (ltb-false (length tail) (get_size d) (omega arith)) in
    (
      finish end,
      ap (λ r. elim r [ none ↦ none | some s ↦ some (finish s) ])
          (ap
              (λ t'.
                scan (scan_fuel size) (record { handler = t'; buf_size = size; bytes_to_drop = 0 }))
              (sym rest)
            ∙ ends),
      finish-Recovers t (frames_of ps) tail d w left,
    )

-- No piece is empty on the line.
no_pieces : (ps : List Piece) (tail : List ℕ) → line ps ++ tail ≡ [] → (ps ≡ []) × (tail ≡ [])
no_pieces [] tail e = (refl, e)
no_pieces (p ∷ ps) tail e = absurd (
    omega (
      arith,
      ap length e,
      length-append (on_line p ++ line ps) tail,
      length-append (on_line p) (line ps),
      some_bytes p,
    ))
  where
    some_bytes : (p : Piece) → 2 ≤ length (on_line p)
    some_bytes (sent noise f) = omega (arith, length-append noise (wire f), wire-le f)
    some_bytes (spoiled noise t n c body) = omega (arith, length-append noise (framed t n c body))

-- `process_data` recovers the frames of a line with noise and spoiled frames. On a handler at rest,
-- whose buffer holds any sequence of pieces and then noise, it puts exactly the frames among them that
-- are as they were sent in the queue, in order and with the time that `frame_start_` holds, and waits
-- for the start of a frame; of the bytes it keeps only the one or two 0xFF that the noise ends in. A
-- piece is, behind noise, a frame that the constructor makes from at most 233 bytes of data, or the
-- header of one with other bytes, as many as it announces, for its data and trailer. Noise is bytes in
-- which no two or more 0xFF in a row are followed by another byte; it may be empty.
pub process_data_line :
    (now : ℕ) (t : Transport) (ps : List Piece) (tail : List ℕ)
    → AtRest t
    → IsValid t.buffer
    → All IsPiece ps
    → IsNoise tail
    → contents t.buffer ≡ line ps ++ tail
    → (t' : Transport) × (process_data now t ≡ some t')
      × Recovers t t' (frames_of ps) (trailing 0 tail)
unfolding process_data
process_data_line now t ps tail rest v pieces quiet e =
    let started = ap (λ t. if t.buffer.is_empty then some t else scan_all t) (expire_never now t) in
    elim (Bool-cases t.buffer.is_empty) [
      | inl empty ↦
          let none_held = (is_empty_iff_size v).0 empty in
          let no_bytes = empty-length (contents t.buffer) (length-contents t.buffer ∙ none_held) in
          let (nothing, silence) = no_pieces ps tail (sym e ∙ no_bytes) in
          let zero_left : trailing 0 tail ≡ 0 = ap (trailing 0) silence in
          (
            t,
            started ∙ ap (λ b. if b then some t else scan_all t) empty,
            record {
              queue =
                  sym (append-nil t.incoming_queue)
                  ∙ ap (λ l. t.incoming_queue ++ map (stamped t.frame_start) (frames_of l))
                      (sym nothing);
              held = no_bytes ∙ ap (λ k. replicate k separator_byte) (sym zero_left);
              valid = v;
              looked = ap (λ (u : Transport). u.pos) (sym rest) ∙ sym zero_left;
              waits = ap (λ u. at_pos u 0) rest;
            },
          )
      | inr full ↦
          let (t', run, recovers) = scan_line t ps tail rest v pieces quiet e in
          (t', started ∙ (ap (λ b. if b then some t else scan_all t) full ∙ run), recovers)
    ]

-- Frames and nothing else.
abbrev plain : List HaierFrame → List Piece
plain [] = []
plain (f ∷ fs) = sent [] f ∷ plain fs

plain-frames : (fs : List HaierFrame) → frames_of (plain fs) ≡ fs
plain-frames [] = refl
plain-frames (f ∷ fs) = ap (λ l. f ∷ l) (plain-frames fs)

plain-line : (fs : List HaierFrame) → line (plain fs) ≡ wires fs
plain-line [] = refl
plain-line (f ∷ fs) = ap (λ l. wire f ++ l) (plain-line fs)

plain-IsPiece : (fs : List HaierFrame) → All IsSent fs → All IsPiece (plain fs)
plain-IsPiece [] h = tt
plain-IsPiece (f ∷ fs) (h, hs) = ((tt, h), plain-IsPiece fs hs)

-- `process_data` takes whole frames that stand in the buffer back to back, and nothing else, for what
-- they are: on a handler at rest it puts each of them in the queue, in order and with the time that
-- `frame_start_` holds, and leaves the handler at rest with an empty buffer. The frames are any that
-- the constructor makes from at most 233 bytes of data, whatever 0xFF bytes these hold.
pub process_data_frames :
    (now : ℕ) (t : Transport) (fs : List HaierFrame)
    → AtRest t
    → IsValid t.buffer
    → All IsSent fs
    → contents t.buffer ≡ wires fs
    → (t' : Transport) × (process_data now t ≡ some t')
      × (t'.incoming_queue ≡ t.incoming_queue ++ map (stamped t.frame_start) fs)
      × (get_size t'.buffer ≡ 0)
      × AtRest t'
process_data_frames now t fs rest v frames e =
    let (t', run, r) =
      process_data_line now t (plain fs) [] rest v (plain-IsPiece fs frames) tt
        (e ∙ sym (plain-line fs) ∙ sym (append-nil (line (plain fs)))) in
    (
      t',
      run,
      r.queue ∙ ap (λ l. t.incoming_queue ++ map (stamped t.frame_start) l) (plain-frames fs),
      sym (length-contents t'.buffer) ∙ ap length r.held,
      r.waits ∙ ap (at_pos t') (sym r.looked),
    )
