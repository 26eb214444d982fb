-- ===== src/Transport/Io.antt =====
-- src/transport/protocol_transport.cpp, `send_data` and `read_data`: the two that use the stream.
use haier_protocol.Prelude.{ℕ, ◌+◌, ◌-◌, Bool, List, length, leb, ltb, if◌then◌else◌, u8}
use haier_protocol.Circular.{get_space, reserve, store}
use haier_protocol.Frame.Types.{max_frame_size, pure_header_size}
use haier_protocol.Frame.Build.{get_buffer_size}
use haier_protocol.Frame.Build
use haier_protocol.Frame.Fill.{fill_buffer}
use haier_protocol.Stream.{ProtocolStream}
use haier_protocol.Transport.State.{Transport, drop_bytes, rescan}

module _ (stream : ProtocolStream) where
  open stream use {State, available, read_array, write_array}

  -- `send_data`: the stream afterwards, and the `uint8_t` returned. `garbage` is what the temporary
  -- buffer holds when it is allocated, at the size asked for.
  unfoldable pub send_data : (ℕ → List ℕ) → State → ℕ → List ℕ → Bool → State × ℕ
  send_data garbage s frame_type bytes use_crc =
      if ltb (max_frame_size - pure_header_size) (length bytes)
      then (s, 0)
      else (let frame = Build.make frame_type bytes (u8 (length bytes)) use_crc in
          let size = get_buffer_size frame in
          (write_array s (fill_buffer frame (garbage size) size).0, u8 size))

  -- Make space for `count` bytes: the oldest are dropped, and with them a frame that was begun.
  unfoldable pub make_space : Transport → ℕ → Transport
  make_space t count =
      let available = get_space t.buffer in
      if ltb available count
      then (let t = drop_bytes t (count - available) in if t.frame_start_found then rescan t else t)
      else t

  -- one `reserve` and the `read_array` into it: the bytes read are those stored
  unfoldable pub read_into : State → Transport → ℕ → State × Transport × ℕ
  read_into s t size =
      let (c, at, n) = reserve t.buffer size in
      let (s', bytes) = read_array s n in (s', record t { buffer = store c at bytes }, length bytes)

  -- The space may be in two parts, at the end of the storage and at its start.
  unfoldable pub read_twice : State → Transport → ℕ → State × Transport × ℕ
  unfolding read_into
  read_twice s t count =
      let (s, t, size1) = read_into s t count in
      if ltb size1 count
      then (let (s, t, size2) = read_into s t (count - size1) in (s, t, size1 + size2))
      else (s, t, size1)

  -- `read_data`: the stream, the handler, and the number of bytes read.
  unfoldable pub read_data : State → Transport → State × Transport × ℕ
  unfolding make_space read_twice
  read_data s t =
      let capacity = t.buffer.capacity in
      let count = if leb capacity (available s) then capacity else available s in
      read_twice s (make_space t count) count
