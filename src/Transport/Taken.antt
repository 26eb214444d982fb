-- ===== src/Transport/Taken.antt =====
-- protocol_transport.cpp, `process_data` on one frame between other bytes.
use haier_protocol.Prelude.{
  suc, subst, ℕ, ◌+◌, ◌/◌, ◌%◌, ◌≤◌, ◌≡◌, ◌≢◌, refl, sym, ap, ◌∙◌, Bool, true, false, List, [], ◌∷◌,
  ◌++◌, append_assoc, arith, length, length-append, unsnoc, if◌then◌else◌, u8, inl, inr,
}
use haier_protocol.Circular.{Circular, IsValid, get_size}
use haier_protocol.Circular
use haier_protocol.Circular.Contents.{contents}
use haier_protocol.Frame.Types.{
  HaierFrame, complete_frame, header_only, empty_frame, frame_header_size, separator_byte,
  pure_header_size, use_crc_mask,
}
use haier_protocol.Frame.Parse.{parse_buffer}
use haier_protocol.Frame.Build.{make}
use haier_protocol.Frame.Wire.{header_bytes, wire, escape, escape-append, escape_cases, body_of}
use haier_protocol.Frame.Accounts.{described}
use haier_protocol.Frame.Roundtrip.{received, parse-header, parse-received}
use haier_protocol.Transport.State.{TimestampedFrame}
use haier_protocol.Transport.Scan.{scan}
use haier_protocol.Transport.Decode.{idle, reading}
use haier_protocol.Transport.Parts.{header_read, body_taken, body_refused}
use haier_protocol.Transport.Noise.{IsNoise}
use haier_protocol.Transport.Search.{find_frame}

-- A frame that the constructor makes from at most 233 bytes of data.
pub record IsSent (f : HaierFrame) : Type 0 where
  pub frame_type : ℕ
  pub bytes : List ℕ
  pub use_crc : Bool
  pub short : length bytes ≤ 233
  pub made : f ≡ make frame_type bytes (length bytes) use_crc

-- the bytes of frames that are sent one after the other
abbrev pub wires : List HaierFrame → List ℕ
wires [] = []
wires (f ∷ fs) = wire f ++ wires fs

abbrev pub stamped : ℕ → HaierFrame → TimestampedFrame
stamped start f = record { frame = f; timestamp = start }

-- the bytes of a header behind the first
abbrev header_front : Bool → List ℕ
header_front c = (if c then use_crc_mask else 0) ∷ 0 ∷ 0 ∷ 0 ∷ 0 ∷ 0 ∷ []

size_byte : ℕ → ℕ
size_byte n = u8 (pure_header_size + n)

size_byte-other : (n : ℕ) → n ≤ 233 → size_byte n ≢ separator_byte
unfolding size_byte
size_byte-other n h e = omega arith

-- The body has a last byte.
body_last :
    (xs : List ℕ) (y : ℕ) (ys : List ℕ) → (zs : List ℕ) × (z : ℕ) × (xs ++ (y ∷ ys) ≡ zs ++ z ∷ [])
body_last xs y ys =
    let (zs, z, e) = unsnoc y ys in
    (xs ++ zs, z, ap (λ l. xs ++ l) e ∙ sym (append_assoc xs zs (z ∷ [])))

-- What is sent for a header and a body, whether they fit or not.
abbrev pub framed : ℕ → ℕ → Bool → List ℕ → List ℕ
framed t n c body = separator_byte ∷ separator_byte ∷ escape (header_bytes t n c ++ body)

abbrev front_of : ℕ → ℕ → Bool → List ℕ
front_of t n c = separator_byte ∷ separator_byte ∷ size_byte n ∷ escape (header_front c ++ t ∷ [])

framed_parts :
    (t n : ℕ) (c : Bool) (body : List ℕ)
    → n ≤ 233
    → framed t n c body ≡ front_of t n c ++ escape body
unfolding size_byte
framed_parts t n c body h =
    let rest = (header_front c ++ t ∷ []) ++ body in
    let split = escape-append (header_front c ++ t ∷ []) body in
    ap (λ l. separator_byte ∷ separator_byte ∷ l)
      (elim (escape_cases (size_byte n) rest) [
        | inl (big, _) ↦ absurd (size_byte-other n h big)
        | inr (_, e) ↦ e ∙ ap (◌∷◌ (size_byte n)) split
      ])

pub body_count :
    (xs : List ℕ) (k hi lo : ℕ) (c : Bool)
    → length xs + (if c then 3 else 1) ≡ length (xs ++ (k ∷ (if c then hi ∷ lo ∷ [] else [])))
body_count xs k hi lo true = omega (arith, length-append xs (k ∷ hi ∷ lo ∷ []))
body_count xs k hi lo false = omega (arith, length-append xs (k ∷ []))

-- Noise and a header are passed; the body is next.
header_passed :
    (noise : List ℕ) (t n : ℕ) (c : Bool) (body : List ℕ) (b : Circular) (rest : List ℕ) (start : ℕ)
    (queue : List TimestampedFrame)
    → n ≤ 233
    → IsNoise noise
    → IsValid b
    → contents b ≡ (noise ++ framed t n c body) ++ rest
    → (d : Circular) × IsValid d
      × (contents d ≡ escape body ++ rest)
      × ((fuel : ℕ)
          → scan (length (noise ++ framed t n c body) + fuel) (idle b start queue)
            ≡ scan (length (escape body) + fuel) (reading d (received t n c) start queue))
header_passed noise t n c body b rest start queue h quiet v e =
    let part = escape (header_front c ++ t ∷ []) in
    let parts = framed_parts t n c body h in
    let tail = part ++ (escape body ++ rest) in
    let held : contents b ≡ noise ++ (separator_byte ∷ separator_byte ∷ size_byte n ∷ tail) =
      e
      ∙ append_assoc noise (framed t n c body) rest
      ∙ ap (λ l. noise ++ (l ++ rest)) parts
      ∙ ap (λ l. noise ++ l) (append_assoc (front_of t n c) (escape body) rest) in
    let (b1, v1, held1, found) =
      find_frame b start queue noise (size_byte n) tail v quiet held (size_byte-other n h) in
    let read =
      header_read b1 (received t n c) (size_byte n) (header_front c) t (escape body ++ rest) start
        queue in
    let parsed : parse_buffer empty_frame
          (separator_byte ∷ separator_byte ∷ size_byte n ∷ (header_front c ++ t ∷ []))
        ≡ (received t n c, frame_header_size, header_only) =
      unfold size_byte in parse-header t n c h in
    let first = read 0 v1 held1 (size_byte-other n h) refl parsed in
    (
      (Circular.drop b1 (length (front_of t n c))).0,
      first.0,
      first.1,
      λ fuel.
          let more = length (escape body) + fuel in
          let both : length (noise ++ framed t n c body) + fuel
              ≡ length noise + suc (suc (suc (length part + more))) =
            omega (
              arith,
              length-append noise (framed t n c body),
              ap length parts,
              length-append (front_of t n c) (escape body),
            ) in
          ap (λ k. scan k (idle b start queue)) both
          ∙ found (length part + more)
          ∙ (read more v1 held1 (size_byte-other n h) refl parsed).2,
    )

-- A frame behind noise is taken.
pub frame_taken :
    (noise : List ℕ) (t : ℕ) (xs : List ℕ) (c : Bool) (b : Circular) (rest : List ℕ) (start : ℕ)
    (queue : List TimestampedFrame)
    → length xs ≤ 233
    → IsNoise noise
    → IsValid b
    → contents b ≡ (noise ++ wire (described t xs c)) ++ rest
    → (d : Circular) × IsValid d
      × (contents d ≡ rest)
      × ((fuel : ℕ)
          → scan (length (noise ++ wire (described t xs c)) + fuel) (idle b start queue)
            ≡ scan fuel (idle d start (queue ++ stamped start (described t xs c) ∷ [])))
unfolding wire
frame_taken noise t xs c b rest start queue h quiet v e =
    let f = described t xs c in
    let (ys, y, last) =
      body_last xs f.checksum (if f.use_crc then f.crc / 256 % 256 ∷ f.crc % 256 ∷ [] else []) in
    let (d, w, held, passed) =
      header_passed noise t (length xs) c (body_of f) b rest start queue h quiet v e in
    let count : length xs + (if c then 3 else 1) ≡ length (ys ++ y ∷ []) =
      body_count xs f.checksum (f.crc / 256 % 256) (f.crc % 256) c ∙ ap length last in
    let g = received t (length xs) c in
    let finished : parse_buffer g (ys ++ y ∷ []) ≡ (f, 0, complete_frame) =
      ap (parse_buffer g) (sym last) ∙ parse-received t xs c h in
    let held' = held ∙ ap (λ l. escape l ++ rest) last in
    let taken =
      λ (fuel : ℕ). body_taken d g f ys y rest start queue fuel w held' refl count finished in
    (
      (Circular.drop d (length (escape (ys ++ y ∷ [])))).0,
      (taken 0).0,
      (taken 0).1,
      λ fuel.
          passed fuel
          ∙ ap (λ l. scan (length (escape l) + fuel) (reading d g start queue)) last
          ∙ (taken fuel).2,
    )

-- A header behind noise with a body of the right size that the parser refuses is passed over.
pub frame_refused :
    (noise : List ℕ) (t n : ℕ) (c : Bool) (body : List ℕ) (b : Circular) (rest : List ℕ) (start : ℕ)
    (queue : List TimestampedFrame)
    → n ≤ 233
    → IsNoise noise
    → IsValid b
    → contents b ≡ (noise ++ framed t n c body) ++ rest
    → length body ≡ n + (if c then 3 else 1)
    → (parse_buffer (received t n c) body).2 ≢ complete_frame
    → (d : Circular) × IsValid d
      × (contents d ≡ rest)
      × ((fuel : ℕ)
          → scan (length (noise ++ framed t n c body) + fuel) (idle b start queue)
            ≡ scan fuel (idle d start queue))
frame_refused noise t n c [] b rest start queue h quiet v e count refused =
    absurd (ground (arith, count))
frame_refused noise t n c (x ∷ xs) b rest start queue h quiet v e count refused =
    let body = x ∷ xs in
    let (ys, y, last) = unsnoc x xs in
    let (d, w, held, passed) = header_passed noise t n c body b rest start queue h quiet v e in
    let g = received t n c in
    let all = sym count ∙ ap length last in
    let held' = held ∙ ap (λ l. escape l ++ rest) last in
    let still = subst (λ l. (parse_buffer g l).2 ≢ complete_frame) last refused in
    let dropped =
      λ (fuel : ℕ). body_refused d g ys y rest start queue fuel w held' refl all still in
    (
      (Circular.drop d (length (escape (ys ++ y ∷ [])))).0,
      (dropped 0).0,
      (dropped 0).1,
      λ fuel.
          passed fuel
          ∙ ap (λ l. scan (length (escape l) + fuel) (reading d g start queue)) last
          ∙ (dropped fuel).2,
    )
