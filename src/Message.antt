-- ===== src/Message.antt =====
-- include/protocol/haier_message.h and src/protocol/haier_message.cpp: a message, with or without a
-- subcommand, and its bytes.
pub mod Payload
use haier_protocol.Prelude.{
  ℕ, ◌+◌, ◌/◌, ◌%◌, Bool, true, false, not, ◌||◌, ◌&&◌, List, [], ◌∷◌, take, ltb, ◌==◌, set,
  store_at, if◌then◌else◌, u8,
}

abbrev pub no_subcommand : ℕ
no_subcommand = 0

-- The null pointer is the empty list.
pub record HaierMessage : Type 0 where
  pub frame_type : ℕ
  pub subcommand : ℕ
  pub data_size : ℕ
  pub bytes : List ℕ

-- The constructor from all parts; the others call it with defaults. `has_bytes` is whether the
-- pointer is not null.
unfoldable pub make : ℕ → ℕ → Bool → List ℕ → ℕ → HaierMessage
make frame_type subcommand has_bytes bytes data_size =
    if has_bytes && not (data_size == 0)
    then record {
      frame_type = frame_type;
      subcommand = subcommand;
      data_size = data_size;
      bytes = take data_size bytes;
    }
    else record { frame_type = frame_type; subcommand = subcommand; data_size = 0; bytes = [] }

-- The copy constructor and the copy assignment.
unfoldable pub copy : HaierMessage → HaierMessage
copy source = record source { bytes = take source.data_size source.bytes }

-- The move constructor and the move assignment: what is left keeps its size and loses its bytes.
unfoldable pub move : HaierMessage → HaierMessage × HaierMessage
move source = (source, record source { bytes = [] })

unfoldable pub get_buffer_size : HaierMessage → ℕ
get_buffer_size m = m.data_size + (if m.subcommand == no_subcommand then 0 else 2)

-- `fill_buffer`: the buffer afterwards and the number of bytes written.
unfoldable pub fill_buffer : HaierMessage → List ℕ → ℕ → List ℕ × ℕ
unfolding get_buffer_size
fill_buffer m buffer limit =
    if ltb limit (get_buffer_size m)
    then (buffer, 0)
    else (let start : List ℕ × ℕ =
          if not (m.subcommand == no_subcommand)
          then (set (set buffer 0 (u8 (m.subcommand / 256))) 1 (u8 (m.subcommand % 256)), 2)
          else (buffer, 0) in
        let (buffer, pos) = start in
        (
          if ltb 0 m.data_size then store_at buffer pos (take m.data_size m.bytes) else buffer,
          pos + m.data_size,
        ))
