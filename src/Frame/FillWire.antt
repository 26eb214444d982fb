-- ===== src/Frame/FillWire.antt =====
-- What `fill_buffer` of haier_frame.cpp writes, against the wire format.
use haier_protocol.Prelude.{
  ℕ, suc, ◌+◌, ◌/◌, ◌%◌, ◌<◌, ◌≤◌, ◌≡◌, refl, sym, ap, ap₂, ◌∙◌, Bool, true, false, List, [], ◌∷◌,
  ◌++◌, arith, length, length-append, get_or, get_or-set_ne, set, take, take_all, drop, ltb, ◌==◌,
  if◌then◌else◌, u8, store_at, store_at-append, store_at_start, ltb-false, lt→ltb, Bool-cases, inl,
  inr,
}
use haier_protocol.Frame.Types.{
  HaierFrame, separator_byte, separator_post_byte, frame_separators_count, initial_crc,
}
use haier_protocol.Frame.Accounts.{make_lem, described, crc16-lt}
use haier_protocol.Frame.Build.{make, get_header_byte, get_buffer_size}
use haier_protocol.Frame.Fill.{Cursor, put, put_escaped, put_header, put_data, filled, fill_buffer}
use haier_protocol.Frame.Wire.{
  escape, separators, header_of, body_of, trailer_bytes, wire, length-escape, separators-append,
  escape-append,
}

put_data-append :
    (xs ys : List ℕ) (c : Cursor) → put_data (xs ++ ys) c ≡ put_data ys (put_data xs c)
unfolding put_data
put_data-append [] ys c = refl
put_data-append (x ∷ xs) ys c = put_data-append xs ys (put_escaped x c)

put_header_lem :
    (f : HaierFrame) (c : Cursor)
    → put_header f 8 frame_separators_count c ≡ put_data (header_of f) c
unfolding put_header put_data
put_header_lem f c = refl

put_trailer :
    (f : HaierFrame) (c : Cursor)
    → (let c' = put_escaped f.checksum c in
        if f.use_crc then put_escaped (f.crc % 256) (put_escaped (f.crc / 256 % 256) c') else c')
      ≡ put_data (trailer_bytes f) c
unfolding put_data
put_trailer f c = ground arith

put_escaped_lem :
    (b : ℕ) (buffer : List ℕ) (p : ℕ)
    → p + length (escape (b ∷ [])) ≤ 256
    → put_escaped b (buffer, u8 p)
      ≡ (store_at buffer p (escape (b ∷ [])), u8 (p + length (escape (b ∷ []))))
unfolding put_escaped store_at
put_escaped_lem b buffer p h = elim (Bool-cases (b == separator_byte)) [
  | inl e ↦
      let e' : b ≡ separator_byte = ground arith in
      let p0 : u8 p ≡ p = ground arith in
      let p1 : u8 (p + 1) ≡ p + 1 = ground arith in
      rw (e', p0, p1)
        (ap (λ k. (set (set buffer p separator_byte) (p + 1) separator_post_byte, u8 k))
          (omega arith))
  | inr e ↦ let p0 : u8 p ≡ p = ground arith in rw (e, p0)
]

-- Up to the 256th byte the cursor does not wrap, and the bytes go where they should.
put_data_lem :
    (bs buffer : List ℕ) (p : ℕ)
    → p + length (escape bs) ≤ 256
    → put_data bs (buffer, u8 p) ≡ (store_at buffer p (escape bs), u8 (p + length (escape bs)))
unfolding put_data
put_data_lem [] buffer p h = unfold store_at in ap (λ k. (buffer, u8 k)) (omega arith)
put_data_lem (b ∷ bs) buffer p h =
    let e = escape (b ∷ []) in
    let split : escape (b ∷ bs) ≡ e ++ escape bs = escape-append (b ∷ []) bs in
    let len : length (escape (b ∷ bs)) ≡ length e + length (escape bs) =
      ap length split ∙ length-append e (escape bs) in
    ap (put_data bs) (put_escaped_lem b buffer p (omega arith))
    ∙ (put_data_lem bs (store_at buffer p e) (p + length e) (omega arith)
        ∙ ap₂ (λ l k. (l, u8 k))
            (store_at-append buffer p e (escape bs) ∙ ap (store_at buffer p) (sym split))
            (omega arith))

-- A frame whose sizes and counts agree, as the constructor and a successful parse leave it.
pub record IsWellFormed (f : HaierFrame) : Type 0 where
  pub sized : f.data_size ≡ length f.bytes
  pub small_crc : f.crc < 65536
  pub counted : f.additional_bytes ≡ separators (header_of f ++ f.bytes)

-- For a frame whose data size, CRC and separator count are right, `get_buffer_size` is the number of
-- its bytes on the wire.
pub get_buffer_size_lem : {f : HaierFrame} → IsWellFormed f → get_buffer_size f ≡ length (wire f)
unfolding get_buffer_size wire
get_buffer_size_lem {f} v =
    let whole = length-escape (header_of f ++ body_of f) in
    let seps = separators-append (header_of f) (body_of f) in
    let seps_body = separators-append f.bytes (trailer_bytes f) in
    let seps_counted = separators-append (header_of f) f.bytes in
    let len = length-append f.bytes (trailer_bytes f) in
    ground (arith, whole, seps, seps_body, seps_counted, len)

start : List ℕ → Cursor
start buffer = (set (set buffer 0 separator_byte) 1 separator_byte, 2)

filled_lem :
    (f : HaierFrame) (buffer : List ℕ)
    → f.data_size ≡ length f.bytes
    → filled f buffer ≡ (put_data (header_of f ++ body_of f) (start buffer)).0
unfolding start filled get_header_byte
filled_lem f buffer e =
    let c : Cursor = (set (set buffer 0 separator_byte) 1 separator_byte, 2) in
    let full : take f.data_size f.bytes ≡ f.bytes = take_all f.data_size f.bytes (omega arith) in
    ap (λ k. k.0)
      ((put_trailer f
          (put_data (take f.data_size f.bytes) (put_header f 8 frame_separators_count c)))
        ∙ (ap₂ (λ l k. put_data (trailer_bytes f) (put_data l k)) full (put_header_lem f c)
            ∙ (sym (put_data-append f.bytes (trailer_bytes f) (put_data (header_of f) c))
                ∙ sym (put_data-append (header_of f) (body_of f) c))))

written :
    (inner buffer : List ℕ)
    → suc (suc (length (escape inner))) ≤ 256
    → suc (suc (length (escape inner))) ≤ length buffer
    → let w = separator_byte ∷ separator_byte ∷ escape inner in
      (put_data inner (start buffer)).0 ≡ w ++ drop (length w) buffer
unfolding start store_at
written inner buffer small room =
    ap (λ k. k.0)
      (put_data_lem inner (set (set buffer 0 separator_byte) 1 separator_byte) 2 (omega arith))
    ∙ store_at_start buffer (separator_byte ∷ separator_byte ∷ escape inner) room

written_wire :
    (f : HaierFrame) (buffer : List ℕ)
    → length (wire f) ≤ 256
    → length (wire f) ≤ length buffer
    → (put_data (header_of f ++ body_of f) (start buffer)).0
      ≡ wire f ++ drop (length (wire f)) buffer
unfolding wire
written_wire f buffer small room = written (header_of f ++ body_of f) buffer small room

-- For a frame whose data size, CRC and separator count are right, and which takes at most 256 bytes
-- on the wire and no more than the buffer has, `fill_buffer` writes these bytes, leaves
-- the rest of the buffer alone and returns their number. Where the limit is less than their number,
-- it writes nothing and returns 0.
pub fill_buffer_lem :
    {f : HaierFrame} (buffer : List ℕ) (limit : ℕ)
    → IsWellFormed f
    → length (wire f) ≤ 256
    → length (wire f) ≤ length buffer
    → (length (wire f) ≤ limit
        → fill_buffer f buffer limit ≡ (wire f ++ drop (length (wire f)) buffer, length (wire f)))
      × (limit < length (wire f) → fill_buffer f buffer limit ≡ (buffer, 0))
unfolding fill_buffer
fill_buffer_lem {f} buffer limit v small room =
    let n = length (wire f) in
    let sz =
      ap (λ k. if ltb limit k then (buffer, 0) else (filled f buffer, k)) (get_buffer_size_lem v) in
    (
      λ fits.
          sz
          ∙ (ap (λ k. if k then (buffer, 0) else (filled f buffer, n)) (ltb-false limit n fits)
              ∙ ap (λ b. (b, n)) (filled_lem f buffer v.sized ∙ written_wire f buffer small room)),
      λ short.
          sz ∙ ap (λ k. if k then (buffer, 0) else (filled f buffer, n)) (lt→ltb limit n short),
    )

-- The cursor stays under 256, and what lies from there on stays as it was.
Keeps : List ℕ → Cursor → Type 0
Keeps buffer c = (c.1 < 256) × ((i : ℕ) → 256 ≤ i → get_or c.0 i 0 ≡ get_or buffer i 0)

put-Keeps : (buffer : List ℕ) (v : ℕ) (c : Cursor) → Keeps buffer c → Keeps buffer (put v c)
unfolding Keeps
put-Keeps buffer v (b, p) (low, same) =
    (omega arith, λ i h. get_or-set_ne b v 0 (omega arith) ∙ same i h)

put_escaped-Keeps :
    (buffer : List ℕ) (v : ℕ) (c : Cursor) → Keeps buffer c → Keeps buffer (put_escaped v c)
unfolding put_escaped
put_escaped-Keeps buffer v c k = elim (Bool-cases (v == separator_byte)) [
  | inl e ↦ rw e (put-Keeps buffer separator_post_byte _ (put-Keeps buffer v c k))
  | inr e ↦ rw e (put-Keeps buffer v c k)
]

put_data-Keeps : (buffer bs : List ℕ) (c : Cursor) → Keeps buffer c → Keeps buffer (put_data bs c)
unfolding put_data
put_data-Keeps buffer [] c k = k
put_data-Keeps buffer (b ∷ bs) c k =
    put_data-Keeps buffer bs (put_escaped b c) (put_escaped-Keeps buffer b c k)

filled-Keeps :
    (f : HaierFrame) (buffer : List ℕ) (i : ℕ)
    → 256 ≤ i
    → get_or (filled f buffer) i 0 ≡ get_or buffer i 0
unfolding filled Keeps get_header_byte
filled-Keeps f buffer i h =
    let c : Cursor = (set (set buffer 0 separator_byte) 1 separator_byte, 2) in
    let k0 : Keeps buffer c =
      put-Keeps buffer separator_byte _
        (put-Keeps buffer separator_byte (buffer, 0) (omega arith, λ j _. refl)) in
    let k1 =
      put_data-Keeps buffer (take f.data_size f.bytes) _
        (put_data-Keeps buffer (header_of f) c k0) in
    let k2 = put_data-Keeps buffer (trailer_bytes f) _ k1 in
    ap (λ (k : Cursor). get_or k.0 i 0)
      (put_trailer f (put_data (take f.data_size f.bytes) (put_header f 8 frame_separators_count c))
        ∙ ap (λ k. put_data (trailer_bytes f) (put_data (take f.data_size f.bytes) k))
            (put_header_lem f c))
    ∙ k2.1 i h

-- Where the limit is not less than the frame's size, however large that is, `fill_buffer` returns this
-- size, and still writes no byte of the buffer from the 257th on.
pub fill_buffer_wraps :
    (f : HaierFrame) (buffer : List ℕ) (limit : ℕ)
    → get_buffer_size f ≤ limit
    → ((fill_buffer f buffer limit).1 ≡ get_buffer_size f)
      × ((i : ℕ) → 256 ≤ i → get_or (fill_buffer f buffer limit).0 i 0 ≡ get_or buffer i 0)
unfolding fill_buffer
fill_buffer_wraps f buffer limit h =
    rw (ltb-false limit (get_buffer_size f) h) (refl, filled-Keeps f buffer)

-- The constructor's frames are well formed.
pub make-IsWellFormed :
    (t : ℕ) (xs : List ℕ) (c : Bool) → length xs ≤ 247 → IsWellFormed (make t xs (length xs) c)
make-IsWellFormed t xs c h =
    rw (make_lem t xs c h)
      (record { sized = refl; small_crc = described_crc t xs c; counted = refl })
  where
    described_crc : (t : ℕ) (xs : List ℕ) (c : Bool) → (described t xs c).crc < 65536
    described_crc t xs true = crc16-lt _ initial_crc (omega arith)
    described_crc t xs false = omega arith
