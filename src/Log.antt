-- ===== src/Log.antt =====
-- src/utils/haier_log.cpp: bytes as text, and the messages of the log. A character is its code. A
-- function that writes to memory gives the list of its writes, each an offset and a character.
pub mod Text
pub mod Placed
pub mod Print
pub mod Bounds
pub mod Overrun
pub mod State
pub mod Tests
use Prim.Native.String.{String}
use Prim.Native.String
use Prim.Native.Char.{code}
use haier_protocol.Prelude.{
  ℕ, zero, suc, ◌+◌, ◌-◌, ◌*◌, ◌/◌, ◌%◌, Bool, true, false, not, ◌&&◌, ◌||◌, List, [], ◌∷◌, ◌++◌,
  map, length, take, get_or, set, replicate, Option, none, some, ltb, leb, ◌==◌, if◌then◌else◌,
  size_add, size_sub, size_mod,
}

abbrev pub codes : String → List ℕ
codes String.[] = []
codes (String.◌∷◌ c s) = code c ∷ codes s

unfoldable pub hex_map : List ℕ
hex_map =
    codes "000102030405060708090A0B0C0D0E0F"
    ++ (codes "101112131415161718191A1B1C1D1E1F"
        ++ (codes "202122232425262728292A2B2C2D2E2F"
            ++ (codes "303132333435363738393A3B3C3D3E3F"
                ++ (codes "404142434445464748494A4B4C4D4E4F"
                    ++ (codes "505152535455565758595A5B5C5D5E5F"
                        ++ (codes "606162636465666768696A6B6C6D6E6F"
                            ++ (codes "707172737475767778797A7B7C7D7E7F"
                                ++ (codes "808182838485868788898A8B8C8D8E8F"
                                    ++ (codes "909192939495969798999A9B9C9D9E9F"
                                        ++ (codes "A0A1A2A3A4A5A6A7A8A9AAABACADAEAF"
                                            ++ (codes "B0B1B2B3B4B5B6B7B8B9BABBBCBDBEBF"
                                                ++ (codes "C0C1C2C3C4C5C6C7C8C9CACBCCCDCECF"
                                                    ++ (codes "D0D1D2D3D4D5D6D7D8D9DADBDCDDDEDF"
                                                        ++ (codes "E0E1E2E3E4E5E6E7E8E9EAEBECEDEEEF"
                                                            ++ codes
                                                            "F0F1F2F3F4F5F6F7F8F9FAFBFCFDFEFF"))))))))))))))

-- `p[k]` for `p = hex_map + (b * 2)`
abbrev pub hex_digit : ℕ → ℕ → ℕ
hex_digit b k = get_or hex_map (b * 2 + k) 0

-- The loop of `buf_to_hex`: `n` bytes from the index `i` on.
unfoldable pub hex_loop : ℕ → ℕ → List ℕ → List ℕ → List ℕ
hex_loop zero i message raw = raw
hex_loop (suc n) i message raw =
    let b = get_or message i 0 in
    hex_loop n (suc i) message (set (set raw (3 * i) (hex_digit b 0)) (3 * i + 1) (hex_digit b 1))

unfoldable pub buf_to_hex : List ℕ → List ℕ
unfolding hex_loop
buf_to_hex message =
    if length message == 0
    then []
    else hex_loop (length message) 0 message
        (replicate (size_sub (length message * 3 % size_mod) 1) b' ')

abbrev pub Writes : Type 0
Writes = List (ℕ × ℕ)

-- The loop of `print_buf`.
unfoldable pub print_loop : ℕ → ℕ → List ℕ → Writes
print_loop zero i src_buf = []
print_loop (suc n) i src_buf =
    let b = get_or src_buf i 0 in
    (3 * i, hex_digit b 0)
    ∷ (3 * i + 1, hex_digit b 1)
    ∷ (3 * i + 2, b' ')
    ∷ print_loop n (suc i) src_buf

-- The three points and the end of the text.
abbrev pub finish_text : Bool → ℕ → Writes × ℕ
finish_text dots pos =
    if dots
    then (let pos = size_add pos 1 in
        (
          (pos, b'.') ∷ (size_add pos 1, b'.') ∷ (size_add pos 2, b'.') ∷ (size_add pos 3, 0) ∷ [],
          size_add pos 3,
        ))
    else ((pos, 0) ∷ [], pos)

-- `print_buf`: the writes from `dst_buf` on, and the position that it returns.
unfoldable pub print_buf : List ℕ → ℕ → Writes × ℕ
unfolding print_loop
print_buf src_buf dst_size =
    let src_size = length src_buf in
    if ltb 0 src_size
    then (let dots = ltb dst_size (src_size * 3 % size_mod) in
        let bytes_to_print = if dots then size_sub dst_size 5 / 3 else src_size in
        let (writes, pos) = finish_text dots (size_sub (3 * bytes_to_print) 1) in
        (print_loop bytes_to_print 0 src_buf ++ writes, pos))
    else ([], 0)

-- `BUFFER_SIZE`, the size of `msg_buffer`.
abbrev pub buffer_size : ℕ
buffer_size = 4096

abbrev pub shift : ℕ → Writes → Writes
shift k [] = []
shift k ((i, c) ∷ rest) = (k + i, c) ∷ shift k rest

-- A text written from an offset on.
abbrev pub writes_at : ℕ → List ℕ → Writes
writes_at i [] = []
writes_at i (c ∷ rest) = (i, c) ∷ writes_at (suc i) rest

-- The loop over the header, whose end is the character 0.
abbrev pub copy_header : List ℕ → ℕ → Writes × ℕ
copy_header [] res = ([], res)
copy_header (c ∷ rest) res =
    let (writes, end) = copy_header rest (suc res) in
    if leb res (buffer_size - 7) then ((res, c) ∷ writes, end) else ([], res)

abbrev pub write_header : Option (List ℕ) → Writes × ℕ
write_header none = ([], 0)
write_header (some header) =
    let (writes, res) = copy_header header 0 in (writes ++ (res, b' ') ∷ [], res + 1)

-- `snprintf` of a text without directives into `n` characters: the writes, and the text's length.
abbrev pub snprintf : List ℕ → ℕ → Writes × ℕ
snprintf text n = ((if n == 0 then [] else writes_at 0 (take (n - 1) text ++ 0 ∷ [])), length text)

-- The second buffer, behind a space.
abbrev pub print_second : List ℕ → ℕ → Writes × ℕ
print_second buffer2 res =
    if ltb 0 (size_sub buffer_size res) && ltb 0 (length buffer2)
    then (let (writes, n) = print_buf buffer2 (size_sub buffer_size (res + 1)) in
        ((res, b' ') ∷ shift (res + 1) writes, res + 1 + n))
    else ([], res)

-- `log_haier_buffers` where a log handler is set and the level is not LEVEL_NONE: the writes to
-- `msg_buffer`, which the log handler is given then, and the result. Null pointers are empty lists,
-- and `none` a header that is null.
unfoldable pub log_haier_buffers : Option (List ℕ) → List ℕ → List ℕ → Writes × ℕ
unfolding print_buf
log_haier_buffers header buffer1 buffer2 =
    let (head, res) = write_header header in
    if length buffer1 + length buffer2 == 0
    then (let (writes, n) = snprintf (codes "<empty>") (size_sub buffer_size (res + 1)) in
        (head ++ shift res writes, res + n))
    else if ltb 0 (length buffer1)
    then (let (first, n) = print_buf buffer1 (size_sub buffer_size res) in
        let (second, end) = print_second buffer2 (res + n) in
        (head ++ (shift res first ++ second), end))
    else (head, res)

-- `log_haier_buffer`
abbrev pub log_haier_buffer : Option (List ℕ) → List ℕ → Writes × ℕ
log_haier_buffer header buffer = log_haier_buffers header buffer []
