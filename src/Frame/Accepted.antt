-- ===== src/Frame/Accepted.antt =====
-- haier_frame.cpp, `parse_buffer`: what the bytes are of a frame that it accepts.
use haier_protocol.Prelude.{
  IsByte, length-append, length-take, subst, ℕ, zero, suc, ◌+◌, ◌*◌, ◌/◌, ◌%◌, ◌<◌, ◌≤◌, ◌≡◌, refl,
  sym, ap, ◌∙◌, Bool, true, List, [], ◌∷◌, ◌++◌, arith, length, get_or, take, ◌==◌, ltb,
  if◌then◌else◌, u8, u16, size_sub, Bool-cases, inl, inr, All,
}
use haier_protocol.Frame.Types.{
  HaierFrame, frame_complete, complete_frame, separator_post_byte, initial_crc,
}
use haier_protocol.Frame.Checksums.{crc16, checksum}
use haier_protocol.Frame.Parse.{
  Parsed, parse_buffer, parse_body, parse_checksum, count_separators, trailer_size,
}
use haier_protocol.Bits.Fields.{IsByte-get_or}
use haier_protocol.Frame.Wire.{body_of, trailer_bytes}
use haier_protocol.Frame.Build.{make}
use haier_protocol.Frame.Accounts.{make_lem}
use haier_protocol.Frame.Roundtrip.{received, completed, completed-received}

-- The result is the completed frame and its trailer was in the buffer.
record Matches (f : HaierFrame) (buffer : List ℕ) (r : Parsed) : Type 0 where
  frame : r.0 ≡ completed f (take f.data_size buffer)
  enough : trailer_size f ≤ length buffer
  sum : (completed f (take f.data_size buffer)).checksum ≡ get_or buffer f.data_size 0
  crc_on :
      f.use_crc ≡ true
      → (completed f (take f.data_size buffer)).crc
        ≡ u16 (get_or buffer (f.data_size + 2) 0 + get_or buffer (f.data_size + 1) 0 * 256)

parse_checksum-complete_frame :
    (f : HaierFrame) (buffer : List ℕ) (crc rpos : ℕ)
    → (parse_checksum f buffer 0 crc rpos).2 ≡ complete_frame
    → let chk = u8 (
        checksum (take f.data_size buffer) f.checksum
        + f.additional_bytes * separator_post_byte % 256) in
      (chk ≡ get_or buffer rpos 0)
      × ((parse_checksum f buffer 0 crc rpos).0 ≡ record f {
        crc = crc;
        checksum = chk;
        status = frame_complete;
        bytes = take f.data_size buffer;
      })
unfolding parse_checksum
parse_checksum-complete_frame f buffer crc rpos e = ground (arith, e)

parse_body-Matches :
    (f : HaierFrame) (buffer : List ℕ)
    → f.data_size ≤ 233
    → (parse_body f buffer 0).2 ≡ complete_frame
    → Matches f buffer (parse_body f buffer 0)
unfolding parse_body
parse_body-Matches f buffer small e =
    elim (Bool-cases (ltb (size_sub (length buffer) 0) (trailer_size f))) [
      | inl short ↦ absurd (ground (arith, short, e))
      | inr long ↦
          let xs = take f.data_size buffer in
          let counted = record f { additional_bytes = count_separators xs f.additional_bytes } in
          let enough : trailer_size f ≤ length buffer = ground (arith, long) in
          elim (Bool-cases f.use_crc) [
            | inr off ↦
                let run : parse_body f buffer 0
                    ≡ parse_checksum counted buffer 0 initial_crc f.data_size =
                  ground (arith, long, off) in
                let (chk, res) =
                  parse_checksum-complete_frame counted buffer initial_crc f.data_size
                    (ap (λ (r : Parsed). r.2) (sym run) ∙ e) in
                record {
                  frame = ap (λ (r : Parsed). r.0) run ∙ (res ∙ ground (arith, off));
                  enough = enough;
                  sum = chk;
                  crc_on = λ on. absurd (ground (arith, on, off));
                }
            | inl on ↦
                elim (Bool-cases (
                  crc16 xs f.crc
                  == u16 (
                      get_or buffer (f.data_size + 2) 0
                      + get_or buffer (f.data_size + 1) 0 * 256))) [
                        | inr wrong ↦ absurd (ground (arith, long, on, wrong, e))
                        | inl right ↦
                            let run : parse_body f buffer 0
                                ≡ parse_checksum counted buffer 0 (crc16 xs f.crc) f.data_size =
                              ground (arith, long, on, right) in
                            let (chk, res) =
                              parse_checksum-complete_frame counted buffer (crc16 xs f.crc)
                                f.data_size (ap (λ (r : Parsed). r.2) (sym run) ∙ e) in
                            record {
                              frame = ap (λ (r : Parsed). r.0) run ∙ (res ∙ ground (arith, on));
                              enough = enough;
                              sum = chk;
                              crc_on = λ _. ground (arith, on, right);
                            }
                      ]
          ]
    ]

take_next : (l : List ℕ) (n : ℕ) → n < length l → take (suc n) l ≡ take n l ++ get_or l n 0 ∷ []
take_next [] n h = absurd (omega arith)
take_next (x ∷ l) zero h = refl
take_next (x ∷ l) (suc n) h = ap (λ k. x ∷ k) (take_next l n (omega arith))

word_bytes :
    (k hi lo : ℕ)
    → hi < 256
    → lo < 256
    → k ≡ u16 (lo + hi * 256)
    → (k / 256 % 256 ≡ hi) × (k % 256 ≡ lo)
word_bytes k hi lo h l e = (omega (arith, h, l, e), omega (arith, h, l, e))

-- The bytes read are the data and the trailer of the completed frame.
trailer_read :
    (f : HaierFrame) (buffer : List ℕ) (r : Parsed)
    → f.data_size ≤ 233
    → All IsByte buffer
    → Matches f buffer r
    → let xs = take f.data_size buffer in
      take (trailer_size f) buffer ≡ xs ++ trailer_bytes (completed f xs)
trailer_read f buffer r small bytes m = elim (Bool-cases f.use_crc) [
  | inr off ↦
      let one : trailer_size f ≡ suc f.data_size = ground (arith, off) in
      ap (λ n. take n buffer) one
      ∙ take_next buffer f.data_size (omega (arith, one, m.enough))
      ∙ ap (λ b. xs ++ b ∷ []) (sym m.sum)
      ∙ ap
          (λ c.
            xs ++ done.checksum ∷ (if c then done.crc / 256 % 256 ∷ done.crc % 256 ∷ [] else []))
          (sym off)
  | inl on ↦
      let three : trailer_size f ≡ suc (suc (suc f.data_size)) = ground (arith, on) in
      let n = f.data_size in
      let (hi, lo) =
        word_bytes done.crc (get_or buffer (n + 1) 0) (get_or buffer (n + 2) 0)
          (IsByte-get_or buffer (n + 1) bytes) (IsByte-get_or buffer (n + 2) bytes) (m.crc_on on) in
      ap (λ n. take n buffer) three
      ∙ take_next buffer (suc (suc n)) (omega (arith, three, m.enough))
      ∙ ap (λ l. l ++ get_or buffer (suc (suc n)) 0 ∷ [])
          (take_next buffer (suc n) (omega (arith, three, m.enough))
            ∙ ap (λ l. l ++ get_or buffer (suc n) 0 ∷ [])
                (take_next buffer n (omega (arith, three, m.enough))))
      ∙ three_more xs (get_or buffer n 0) (get_or buffer (suc n) 0) (get_or buffer (suc (suc n)) 0)
      ∙ ap (λ b. xs ++ b ∷ get_or buffer (suc n) 0 ∷ get_or buffer (suc (suc n)) 0 ∷ []) (sym m.sum)
      ∙ ap (λ b. xs ++ done.checksum ∷ b ∷ get_or buffer (suc (suc n)) 0 ∷ [])
          (ap (λ i. get_or buffer i 0) {x = suc n} {y = n + 1} (omega arith) ∙ sym hi)
      ∙ ap (λ b. xs ++ done.checksum ∷ done.crc / 256 % 256 ∷ b ∷ [])
          (ap (λ i. get_or buffer i 0) {x = suc (suc n)} {y = n + 2} (omega arith) ∙ sym lo)
      ∙ ap
          (λ c.
            xs ++ done.checksum ∷ (if c then done.crc / 256 % 256 ∷ done.crc % 256 ∷ [] else []))
          (sym on)
]
  where
    xs : List ℕ
    xs = take f.data_size buffer

    done : HaierFrame
    done = completed f xs

    three_more :
        (l : List ℕ) (a b c : ℕ) → ((l ++ a ∷ []) ++ b ∷ []) ++ c ∷ [] ≡ l ++ a ∷ b ∷ c ∷ []
    three_more [] a b c = refl
    three_more (x ∷ l) a b c = ap (λ k. x ∷ k) (three_more l a b c)

-- Nothing else is accepted than what a sender writes. After the header of a frame with at most 233
-- bytes of data, any bytes of which `parse_buffer` makes a complete frame begin with the data and the
-- trailer of that frame, and the frame is the one that the constructor makes of its type and its data.
pub parse_buffer-Accepted :
    (t n : ℕ) (c : Bool) (buffer : List ℕ)
    → n ≤ 233
    → All IsByte buffer
    → (parse_buffer (received t n c) buffer).2 ≡ complete_frame
    → let f = (parse_buffer (received t n c) buffer).0 in
      (f ≡ make t (take n buffer) n c) × (take (length (body_of f)) buffer ≡ body_of f)
unfolding parse_buffer
parse_buffer-Accepted t n c buffer small bytes e =
    let xs = take n buffer in
    let m = parse_body-Matches (received t n c) buffer small e in
    let size : n ≤ length buffer = ground (arith, small, m.enough) in
    let len : length xs ≡ n = omega (arith, size, length-take n buffer) in
    let built : completed (received t n c) xs ≡ make t xs n c =
      subst (λ k. completed (received t k c) xs ≡ make t xs k c) len
        (completed-received t xs c (omega arith) ∙ sym (make_lem t xs c (omega arith))) in
    let read = trailer_read (received t n c) buffer _ small bytes m in
    let whole : length (body_of (completed (received t n c) xs)) ≡ trailer_size (received t n c) =
      body_length (received t n c) xs len small in
    (
      m.frame ∙ built,
      subst (λ f. take (length (body_of f)) buffer ≡ body_of f) (sym m.frame)
          (ap (λ k. take k buffer) whole ∙ read),
    )
  where
    body_length :
        (g : HaierFrame) (xs : List ℕ)
        → length xs ≡ g.data_size
        → g.data_size ≤ 233
        → length (body_of (completed g xs)) ≡ trailer_size g
    body_length g xs e h =
        let both = length-append xs (trailer_bytes (completed g xs)) in
        elim (Bool-cases g.use_crc) [
          | inl on ↦ both ∙ ground (arith, on, e, h)
          | inr off ↦ both ∙ ground (arith, off, e, h)
        ]
