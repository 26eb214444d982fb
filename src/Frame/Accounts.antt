-- ===== src/Frame/Accounts.antt =====
-- What the constructor of haier_frame.cpp computes: the count of 0xFF bytes, the sum and the CRC.
use haier_protocol.Prelude.{
  ℕ, ◌+◌, ◌*◌, ◌%◌, ◌<◌, ◌≤◌, ◌≡◌, refl, sym, ap, ap₂, ◌∙◌, Bool, true, false, List, [], ◌∷◌, ◌++◌,
  arith, length, length-append, take, take_all, ◌==◌, if◌then◌else◌, u8, lt→ltb,
}
use haier_protocol.Frame.Types.{
  HaierFrame, frame_complete, separator_byte, separator_post_byte, initial_crc, header_size_pos,
}
use haier_protocol.Frame.Checksums.{crc16_byte, crc16, checksum}
use haier_protocol.Frame.Build.{
  get_header_byte, account, header_accounts, data_accounts, initial_frame, add_post_bytes, make,
}
use haier_protocol.Frame.Parse.{count_separators}
use haier_protocol.Frame.Wire.{
  escape, separators, sum, header_bytes, separators-append, separators-le, sum-escape,
}

pub checksum_lem : (bs : List ℕ) (c : ℕ) → c < 256 → checksum bs c ≡ (c + sum bs) % 256
unfolding checksum
checksum_lem [] c h = omega arith
checksum_lem (b ∷ bs) c h = omega (arith, checksum_lem bs (u8 (c + b)) (omega arith))

pub count_separators_lem :
    (bs : List ℕ) (n : ℕ) → n + separators bs < 256 → count_separators bs n ≡ n + separators bs
unfolding count_separators
count_separators_lem [] n h = omega arith
count_separators_lem (b ∷ bs) n h =
    ground (arith, count_separators_lem bs (if b == separator_byte then u8 (n + 1) else n))

pub crc16-append : (xs ys : List ℕ) (c : ℕ) → crc16 (xs ++ ys) c ≡ crc16 ys (crc16 xs c)
unfolding crc16
crc16-append [] ys c = refl
crc16-append (x ∷ xs) ys c = crc16-append xs ys (crc16_byte x c)

-- A CRC is a 16-bit word.
pub crc16-lt : (xs : List ℕ) (c : ℕ) → c < 65536 → crc16 xs c < 65536
unfolding crc16
crc16-lt [] c h = h
crc16-lt (x ∷ xs) c h = crc16-lt xs (crc16_byte x c) (unfold crc16_byte in omega arith)

-- The accounts of a list of bytes, all at once.
pub data_accounts_lem :
    (bs : List ℕ) (f : HaierFrame)
    → f.checksum < 256
    → data_accounts bs f ≡ record f {
      additional_bytes = count_separators bs f.additional_bytes;
      checksum = checksum bs f.checksum;
      crc = if f.use_crc then crc16 bs f.crc else f.crc;
    }
unfolding data_accounts count_separators checksum crc16
data_accounts_lem [] f h = ground arith
data_accounts_lem (b ∷ bs) f h =
    data_accounts_lem bs (account f b) (unfold account in ground arith)
    ∙ (unfold account in ground arith)

-- The loop over the header bytes goes through `header_bytes`.
header_accounts_lem :
    (t n : ℕ) (c : Bool)
    → header_accounts 8 header_size_pos (initial_frame t n c)
      ≡ data_accounts (header_bytes t n c) (initial_frame t n c)
unfolding header_accounts data_accounts account get_header_byte
header_accounts_lem t n true = refl
header_accounts_lem t n false = refl

-- The frame that `made` describes: what the README says of each field.
abbrev pub described : ℕ → List ℕ → Bool → HaierFrame
described t bytes c =
    let covered = header_bytes t (length bytes) c ++ bytes in
    record {
      frame_type = t;
      use_crc = c;
      data_size = length bytes;
      checksum = sum (escape covered) % 256;
      crc = if c then crc16 covered initial_crc else initial_crc;
      bytes = bytes;
      status = frame_complete;
      additional_bytes = separators covered;
    }

pub sum-append : (xs ys : List ℕ) → sum (xs ++ ys) ≡ sum xs + sum ys
sum-append [] ys = omega arith
sum-append (x ∷ xs) ys = omega (arith, sum-append xs ys)

same_fields :
    (t : ℕ) (bytes : List ℕ) (c : Bool) (n s k : ℕ)
    → let covered = header_bytes t (length bytes) c ++ bytes in
      n ≡ separators covered
      → u8 (s + n * separator_post_byte) ≡ sum (escape covered) % 256
      → k ≡ (if c then crc16 covered initial_crc else initial_crc)
      → add_post_bytes (record (initial_frame t (length bytes) c) {
        bytes = bytes;
        additional_bytes = n;
        checksum = s;
        crc = k;
      })
        ≡ described t bytes c
same_fields t bytes c n s k e1 e2 e3 = rw (e2, e1, e3)

pub crc_both :
    (h bytes : List ℕ) (c : Bool)
    → (let k = if c then crc16 h initial_crc else initial_crc in if c then crc16 bytes k else k)
      ≡ (if c then crc16 (h ++ bytes) initial_crc else initial_crc)
crc_both h bytes true = sym (crc16-append h bytes initial_crc)
crc_both h bytes false = refl

-- Accounts of the header, then of the data, are those of both in one.
accounts_both :
    (t : ℕ) (bytes : List ℕ) (c : Bool)
    → length bytes ≤ 247
    → let h = header_bytes t (length bytes) c in
      add_post_bytes (
        data_accounts bytes
          (record (data_accounts h (initial_frame t (length bytes) c)) { bytes = bytes }))
      ≡ described t bytes c
accounts_both t bytes c fits =
    let h = header_bytes t (length bytes) c in
    let start = initial_frame t (length bytes) c in
    let mid = record start {
      bytes = bytes;
      additional_bytes = count_separators h 0;
      checksum = checksum h 0;
      crc = if c then crc16 h initial_crc else initial_crc;
    } in
    let le = separators-le (h ++ bytes) in
    let many = separators-append h bytes in
    let few : separators h ≤ 8 = separators-le h in
    let len : length (h ++ bytes) ≡ 8 + length bytes = length-append h bytes in
    let count_h = count_separators_lem h 0 (omega arith) in
    let count_b = count_separators_lem bytes (count_separators h 0) (omega arith) in
    let sum_h = checksum_lem h 0 (omega arith) in
    let sum_b = checksum_lem bytes (checksum h 0) (omega arith) in
    let both = sum-append h bytes in
    let post = sum-escape (h ++ bytes) in
    ap (λ f. add_post_bytes (data_accounts bytes (record f { bytes = bytes })))
      (data_accounts_lem h start (omega arith))
    ∙ (ap add_post_bytes (data_accounts_lem bytes mid (omega arith))
        ∙ same_fields t bytes c _ _ _ (omega arith) (omega arith) (crc_both h bytes c))

-- From at most 247 bytes the constructor gives the frame that the format describes: the checksum is the sum of all bytes
-- between the separators and the checksum as they stand on the wire, the CRC covers the same bytes
-- without the post bytes, and every 0xFF among them is counted.
pub make_lem :
    (t : ℕ) (bytes : List ℕ) (c : Bool)
    → length bytes ≤ 247
    → make t bytes (length bytes) c ≡ described t bytes c
unfolding make
make_lem t [] c fits =
    ap add_post_bytes (header_accounts_lem t 0 c)
    ∙ (unfold data_accounts in accounts_both t [] c fits)
make_lem t (b ∷ bs) c fits =
    let bytes = b ∷ bs in
    let header = header_accounts 8 header_size_pos (initial_frame t (length bytes) c) in
    let held = take (length bytes) bytes in
    let with_data = λ (h : HaierFrame) (l : List ℕ). data_accounts l (record h { bytes = l }) in
    ap (λ k. add_post_bytes (if k then with_data header held else header))
      (lt→ltb 0 (length bytes) (omega arith))
    ∙ (ap₂ (λ h l. add_post_bytes (with_data h l)) (header_accounts_lem t (length bytes) c)
          (take_all (length bytes) bytes (omega arith))
        ∙ accounts_both t bytes c fits)
