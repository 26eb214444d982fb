-- ===== src/Frame/Fill.antt =====
-- src/transport/haier_frame.cpp, `fill_buffer`.
use haier_protocol.Prelude.{
  ℕ, zero, suc, ◌+◌, ◌/◌, ◌%◌, List, [], ◌∷◌, set, take, ltb, ◌==◌, if◌then◌else◌, u8,
}
use haier_protocol.Frame.Types.{
  HaierFrame, separator_byte, separator_post_byte, frame_separators_count,
}
use haier_protocol.Frame.Build.{get_header_byte, get_buffer_size}

-- The buffer and `pos`, which is a `uint8_t`.
abbrev pub Cursor : Type 0
Cursor = List ℕ × ℕ

abbrev pub put : ℕ → Cursor → Cursor
put value (buffer, pos) = (set buffer pos value, u8 (pos + 1))

-- `SET_WITH_POST_BYTE`
unfoldable pub put_escaped : ℕ → Cursor → Cursor
put_escaped value c =
    if value == separator_byte then put separator_post_byte (put value c) else put value c

-- the loop over the header bytes after the separators
unfoldable pub put_header : HaierFrame → ℕ → ℕ → Cursor → Cursor
unfolding put_escaped get_header_byte
put_header f zero i c = c
put_header f (suc n) i c = put_header f n (i + 1) (put_escaped (get_header_byte f i) c)

-- the loop over the data
unfoldable pub put_data : List ℕ → Cursor → Cursor
unfolding put_escaped
put_data [] c = c
put_data (b ∷ bs) c = put_data bs (put_escaped b c)

-- the writing, once the size was found to fit
unfoldable pub filled : HaierFrame → List ℕ → List ℕ
unfolding put_header put_data put_escaped get_header_byte
filled f buffer =
    let c = put (get_header_byte f 1) (put (get_header_byte f 0) (buffer, 0)) in
    let c = put_header f 8 frame_separators_count c in
    let c = put_data (take f.data_size f.bytes) c in
    let c = put_escaped f.checksum c in
    (if f.use_crc then put_escaped (f.crc % 256) (put_escaped (f.crc / 256 % 256) c) else c).0

-- `fill_buffer`: the buffer afterwards, and the size returned.
unfoldable pub fill_buffer : HaierFrame → List ℕ → ℕ → List ℕ × ℕ
fill_buffer f buffer limit =
    let sz = get_buffer_size f in if ltb limit sz then (buffer, 0) else (filled f buffer, sz)
