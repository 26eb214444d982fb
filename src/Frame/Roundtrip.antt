-- ===== src/Frame/Roundtrip.antt =====
-- haier_frame.cpp: `parse_buffer` in two calls, as the transport makes them, on what the constructor
-- made.
use haier_protocol.Prelude.{
  ℕ, ◌+◌, ◌*◌, ◌/◌, ◌%◌, ◌<◌, ◌≤◌, ◌≡◌, refl, sym, ap, ◌∙◌, Bool, true, false, List, [], ◌∷◌, ◌++◌,
  arith, length, length-append, get_or, get_or-append_right, take, take-append_self, ◌==◌,
  if◌then◌else◌, u8, u16, Bool-cases, inl, inr,
}
use haier_protocol.Frame.Types.{
  HaierFrame, frame_complete, frame_header_only, empty_frame, header_only, complete_frame,
  separator_byte, separator_post_byte, pure_header_size, initial_crc, frame_separators_count,
  frame_header_size,
}
use haier_protocol.Frame.Checksums.{crc16, checksum}
use haier_protocol.Frame.Parse.{
  parse_in, accept_header, header_loop, header_locals, parse_buffer, parse_body, parse_header,
  count_separators,
}
use haier_protocol.Frame.Wire.{
  escape, separators, sum, header_bytes, separators-append, separators-le, sum-escape, header_of,
  body_of, trailer_bytes,
}
use haier_protocol.Frame.Build.{make}
use haier_protocol.Frame.Accounts.{
  make_lem, sum-append, crc16-lt, described, checksum_lem, count_separators_lem, crc16-append,
}

-- The frame after its header: the sum and the CRC so far, and the one 0xFF that a header can hold.
abbrev pub received : ℕ → ℕ → Bool → HaierFrame
received t n c = record {
  frame_type = t;
  use_crc = c;
  data_size = n;
  checksum = checksum (header_bytes t n c) 0;
  crc = if c then crc16 (header_bytes t n c) initial_crc else initial_crc;
  bytes = [];
  status = frame_header_only;
  additional_bytes = if t == separator_byte then 1 else 0;
}

header_loop_lem :
    (t n : ℕ) (c : Bool)
    → header_loop 8 frame_separators_count
        (separator_byte ∷ separator_byte ∷ header_bytes t n c)
        (header_locals empty_frame)
      ≡ record {
        fsize = u8 (pure_header_size + n);
        use_crc = c;
        frame_type = t;
        chk = checksum (header_bytes t n c) 0;
        crc = if c then crc16 (header_bytes t n c) initial_crc else initial_crc;
        additional_bytes = if t == separator_byte then 1 else 0;
      }
unfolding header_loop checksum crc16
header_loop_lem t n true = refl
header_loop_lem t n false = refl

-- The ten header bytes of a frame of up to 233 data bytes are taken in as its header.
pub parse-header :
    (t n : ℕ) (c : Bool)
    → n ≤ 233
    → parse_buffer empty_frame (separator_byte ∷ separator_byte ∷ header_bytes t n c)
      ≡ (received t n c, frame_header_size, header_only)
unfolding parse_buffer parse_header
parse-header t n c h =
    let buffer = separator_byte ∷ separator_byte ∷ header_bytes t n c in
    ap (accept_header empty_frame buffer) (header_loop_lem t n c) ∙ ground arith

trailer_crc : (k : ℕ) → k < 65536 → u16 (k % 256 + k / 256 % 256 * 256) ≡ k
trailer_crc k h = omega arith

-- The frame with its data and trailer.
abbrev pub completed : HaierFrame → List ℕ → HaierFrame
completed f data_bytes = record f {
  additional_bytes = count_separators data_bytes f.additional_bytes;
  crc = if f.use_crc then crc16 data_bytes f.crc else initial_crc;
  checksum = u8 (
      checksum data_bytes f.checksum
      + count_separators data_bytes f.additional_bytes * separator_post_byte % 256);
  status = frame_complete;
  bytes = data_bytes;
}

-- the two parts of the body that stand at known places
body_parts :
    (xs ys : List ℕ) (n : ℕ)
    → n ≡ length xs
    → (take n (xs ++ ys) ≡ xs)
      × (length (xs ++ ys) ≡ n + length ys)
      × (get_or (xs ++ ys) n 0 ≡ get_or ys 0 0)
      × (get_or (xs ++ ys) (n + 1) 0 ≡ get_or ys 1 0)
      × (get_or (xs ++ ys) (n + 2) 0 ≡ get_or ys 2 0)
body_parts xs ys n e = rw e (
  take-append_self xs ys,
  length-append xs ys,
  ap (λ k. get_or (xs ++ ys) k 0) (omega arith) ∙ get_or-append_right xs ys 0 0,
  get_or-append_right xs ys 0 1,
  get_or-append_right xs ys 0 2,
)

-- A body of the right length with the right trailer completes the frame.
pub parse-body :
    (f : HaierFrame) (xs : List ℕ)
    → f.status ≡ frame_header_only
    → f.data_size ≡ length xs
    → length xs ≤ 233
    → crc16 xs f.crc < 65536
    → parse_buffer f (xs ++ trailer_bytes (completed f xs)) ≡ (completed f xs, 0, complete_frame)
unfolding parse_buffer
parse-body f xs st e h k =
    ap (λ s. parse_in s f (xs ++ trailer_bytes (completed f xs))) st
    ∙ elim (Bool-cases f.use_crc) [ inl on ↦ with_crc on | inr off ↦ without_crc off ]
  where
    buffer : List ℕ
    buffer = xs ++ trailer_bytes (completed f xs)

    with_crc : f.use_crc ≡ true → parse_body f buffer 0 ≡ (completed f xs, 0, complete_frame)
    with_crc on =
        let (tk, len, chk, hi, lo) = body_parts xs (trailer_bytes (completed f xs)) f.data_size e in
        unfold parse_body in
        ground (arith, on, tk, len, chk, hi, lo, trailer_crc (crc16 xs f.crc) k)

    without_crc : f.use_crc ≡ false → parse_body f buffer 0 ≡ (completed f xs, 0, complete_frame)
    without_crc off =
        let (tk, len, chk, hi, lo) = body_parts xs (trailer_bytes (completed f xs)) f.data_size e in
        unfold parse_body in ground (arith, off, tk, len, chk)

crc_on :
    (h xs : List ℕ) (c : Bool)
    → (if c then crc16 xs (if c then crc16 h initial_crc else initial_crc) else initial_crc)
      ≡ (if c then crc16 (h ++ xs) initial_crc else initial_crc)
crc_on h xs true = sym (crc16-append h xs initial_crc)
crc_on h xs false = refl

received_crc : (t n : ℕ) (c : Bool) → (received t n c).crc < 65536
received_crc t n true = crc16-lt (header_bytes t n true) initial_crc (omega arith)
received_crc t n false = omega arith

-- What the header left, completed by the data, is the frame that the constructor makes.
pub completed-received :
    (t : ℕ) (xs : List ℕ) (c : Bool)
    → length xs ≤ 233
    → completed (received t (length xs) c) xs ≡ described t xs c
completed-received t xs c h =
    let hs = header_bytes t (length xs) c in
    let a : ℕ = if t == separator_byte then 1 else 0 in
    let le = separators-le xs in
    let first : separators hs ≡ a = ground arith in
    let few : a ≤ 1 = ground arith in
    let all = separators-append hs xs in
    let count : count_separators xs a ≡ separators (hs ++ xs) =
      count_separators_lem xs a (omega arith) ∙ omega arith in
    let sum_h = checksum_lem hs 0 (omega arith) in
    let sum_b = checksum_lem xs (checksum hs 0) (omega arith) in
    let both = sum-append hs xs in
    let post = sum-escape (hs ++ xs) in
    let total : u8 (checksum xs (checksum hs 0) + separators (hs ++ xs) * separator_post_byte % 256)
        ≡ sum (escape (hs ++ xs)) % 256 =
      omega arith in
    rw (count, total, crc_on hs xs c)

pub parse-received :
    (t : ℕ) (xs : List ℕ) (c : Bool)
    → length xs ≤ 233
    → parse_buffer (received t (length xs) c) (body_of (described t xs c))
      ≡ (described t xs c, 0, complete_frame)
parse-received t xs c h =
    let same = completed-received t xs c h in
    ap (λ f. parse_buffer (received t (length xs) c) (body_of f)) (sym same)
    ∙ (parse-body (received t (length xs) c) xs refl refl h
          (crc16-lt xs _ (received_crc t (length xs) c))
        ∙ ap (λ f. (f, 0, complete_frame)) same)

-- A frame with at most 233 bytes of data is taken in whole from its header and its body, in two
-- calls: the second reports a complete frame, which is the one that was sent.
pub parse-make :
    (t : ℕ) (xs : List ℕ) (c : Bool)
    → length xs ≤ 233
    → let f = make t xs (length xs) c in
      let (g, pos, err) =
        parse_buffer empty_frame (separator_byte ∷ separator_byte ∷ header_of f) in
      (err ≡ header_only) × (parse_buffer g (body_of f) ≡ (f, 0, complete_frame))
parse-make t xs c h =
    rw (make_lem t xs c (omega arith), parse-header t (length xs) c h)
      (refl, parse-received t xs c h)
