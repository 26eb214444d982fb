-- ===== src/Transport/Line.antt =====
-- protocol_transport.cpp, `process_data` on a line with frames, spoiled frames and noise.
use haier_protocol.Prelude.{
  ◌/◌, ◌%◌, ℕ, ◌+◌, ◌≤◌, ◌≡◌, ◌≢◌, refl, sym, ap, ap₂, subst, ◌∙◌, Bool, List, [], ◌∷◌, ◌++◌,
  append-nil, append_assoc, map, arith, length, length-append, length-take, take, take_all,
  if◌then◌else◌, All, IsByte,
}
use haier_protocol.Circular.{Circular, IsValid}
use haier_protocol.Circular.Contents.{contents}
use haier_protocol.Frame.Types.{HaierFrame, complete_frame}
use haier_protocol.Frame.Build.{make}
use haier_protocol.Frame.Parse.{parse_buffer}
use haier_protocol.Frame.Wire.{wire, body_of}
use haier_protocol.Frame.Accounts.{make_lem, described}
use haier_protocol.Frame.Roundtrip.{received}
use haier_protocol.Frame.Accepted.{parse_buffer-Accepted}
use haier_protocol.Transport.State.{TimestampedFrame}
use haier_protocol.Transport.Scan.{scan}
use haier_protocol.Transport.Decode.{idle}
use haier_protocol.Transport.Noise.{IsNoise}
use haier_protocol.Transport.Taken.{IsSent, stamped, framed, body_count, frame_taken, frame_refused}

-- What a line carries, each behind noise: a frame as it was sent, or a frame's header with another
-- body of the size that it announces.
pub data Piece : Type 0 where
  sent : List ℕ → HaierFrame → Piece
  spoiled : List ℕ → ℕ → ℕ → Bool → List ℕ → Piece

abbrev pub on_line : Piece → List ℕ
on_line (sent noise f) = noise ++ wire f
on_line (spoiled noise t n c body) = noise ++ framed t n c body

abbrev pub line : List Piece → List ℕ
line [] = []
line (p ∷ ps) = on_line p ++ line ps

abbrev pub frames_of : List Piece → List HaierFrame
frames_of [] = []
frames_of (sent noise f ∷ ps) = f ∷ frames_of ps
frames_of (spoiled noise t n c body ∷ ps) = frames_of ps

-- A body of the size that the header announces, but not the one that the constructor makes of its
-- data.
pub record IsSpoiled (t n : ℕ) (c : Bool) (body : List ℕ) : Type 0 where
  pub short : n ≤ 233
  pub bytes : All IsByte body
  pub count : length body ≡ n + (if c then 3 else 1)
  pub differs : body ≢ body_of (make t (take n body) n c)

abbrev pub IsPiece : Piece → Type 0
IsPiece (sent noise f) = IsNoise noise × IsSent f
IsPiece (spoiled noise t n c body) = IsNoise noise × IsSpoiled t n c body

-- The parser refuses a spoiled body.
spoiled_refused :
    (t n : ℕ) (c : Bool) (body : List ℕ)
    → IsSpoiled t n c body
    → (parse_buffer (received t n c) body).2 ≢ complete_frame
spoiled_refused t n c body h e =
    let (same, read) = parse_buffer-Accepted t n c body h.short h.bytes e in
    let xs = take n body in
    let some_bytes : 1 ≤ (if c then 3 else 1) = ground arith in
    let size : length xs ≡ n = omega (arith, h.count, some_bytes, length-take n body) in
    let built : make t xs n c ≡ described t xs c =
      subst (λ k. make t xs k c ≡ described t xs c) size
        (make_lem t xs c (omega (arith, h.short))) in
    let f = described t xs c in
    let whole : length (body_of f) ≡ length body =
      sym (body_count xs f.checksum (f.crc / 256 % 256) (f.crc % 256) c) ∙ omega (arith, h.count) in
    let is_made = same ∙ built in
    h.differs (
      sym (take_all (length body) body (omega arith))
      ∙ ap (λ k. take k body) (sym whole)
      ∙ subst (λ g. take (length (body_of g)) body ≡ body_of g) is_made read
      ∙ ap body_of (sym built))

piece_passed :
    (p : Piece) (b : Circular) (rest : List ℕ) (start : ℕ) (queue : List TimestampedFrame)
    → IsPiece p
    → IsValid b
    → contents b ≡ on_line p ++ rest
    → (d : Circular) × IsValid d
      × (contents d ≡ rest)
      × ((fuel : ℕ)
          → scan (length (on_line p) + fuel) (idle b start queue)
            ≡ scan fuel (idle d start (queue ++ map (stamped start) (frames_of (p ∷ [])))))
piece_passed (sent noise f) b rest start queue (quiet, now) v e =
    let made =
      now.made ∙ make_lem now.frame_type now.bytes now.use_crc (omega (arith, now.short)) in
    let (d, w, left, run) =
      frame_taken noise now.frame_type now.bytes now.use_crc b rest start queue now.short quiet v
        (e ∙ ap (λ f. (noise ++ wire f) ++ rest) made) in
    (
      d,
      w,
      left,
      λ fuel.
          subst
            (λ f.
              scan (length (noise ++ wire f) + fuel) (idle b start queue)
              ≡ scan fuel (idle d start (queue ++ stamped start f ∷ [])))
            (sym made) (run fuel),
    )
piece_passed (spoiled noise t n c body) b rest start queue (quiet, h) v e =
    let (d, w, left, run) =
      frame_refused noise t n c body b rest start queue h.short quiet v e h.count
        (spoiled_refused t n c body h) in
    (d, w, left, λ fuel. run fuel ∙ ap (λ q. scan fuel (idle d start q)) (sym (append-nil queue)))

frames_of-cons :
    (p : Piece) (ps : List Piece) → frames_of (p ∷ ps) ≡ frames_of (p ∷ []) ++ frames_of ps
frames_of-cons (sent noise f) ps = refl
frames_of-cons (spoiled noise t n c body) ps = refl

map_append :
    (start : ℕ) (fs gs : List HaierFrame)
    → map (stamped start) (fs ++ gs) ≡ map (stamped start) fs ++ map (stamped start) gs
map_append start [] gs = refl
map_append start (f ∷ fs) gs = ap (λ l. stamped start f ∷ l) (map_append start fs gs)

-- All pieces are passed, and the frames as they were sent are in the queue.
pub pieces_passed :
    (ps : List Piece) (tail : List ℕ) (b : Circular) (start : ℕ) (queue : List TimestampedFrame)
    → All IsPiece ps
    → IsValid b
    → contents b ≡ line ps ++ tail
    → (d : Circular) × IsValid d
      × (contents d ≡ tail)
      × ((fuel : ℕ)
          → scan (length (line ps) + fuel) (idle b start queue)
            ≡ scan fuel (idle d start (queue ++ map (stamped start) (frames_of ps))))
pieces_passed [] tail b start queue h v e =
    (b, v, e, λ fuel. ap₂ (λ n q. scan n (idle b start q)) (omega arith) (sym (append-nil queue)))
pieces_passed (p ∷ ps) tail b start queue (now, later) v e =
    let rest = line ps ++ tail in
    let (d, w, left, run) =
      piece_passed p b rest start queue now v (e ∙ append_assoc (on_line p) (line ps) tail) in
    let first = map (stamped start) (frames_of (p ∷ [])) in
    let (d', w', left', run') = pieces_passed ps tail d start (queue ++ first) later w left in
    let all : (queue ++ first) ++ map (stamped start) (frames_of ps)
        ≡ queue ++ map (stamped start) (frames_of (p ∷ ps)) =
      append_assoc queue first (map (stamped start) (frames_of ps))
      ∙ ap (λ l. queue ++ l)
          (sym (map_append start (frames_of (p ∷ [])) (frames_of ps))
            ∙ ap (map (stamped start)) (sym (frames_of-cons p ps))) in
    (
      d',
      w',
      left',
      λ fuel.
          ap (λ n. scan n (idle b start queue)) {y = length (on_line p) + (length (line ps) + fuel)}
            (omega (arith, length-append (on_line p) (line ps)))
          ∙ run (length (line ps) + fuel)
          ∙ run' fuel
          ∙ ap (λ q. scan fuel (idle d' start q)) all,
    )
