-- ===== src/Serial.antt =====
-- tools/utils/serial_stream.h and serial_stream.cpp, as they are built for Linux: a serial port behind
-- a ring.
pub mod Lossless
pub mod Tests
use haier_protocol.Prelude.{
  ℕ, ◌≤◌, ◌≡◌, Bool, true, false, not, ◌||◌, List, [], length, ltb, leb, if◌then◌else◌, Option,
  none, some,
}
use haier_protocol.Circular.{Circular, get_size, push_all, pop}
use haier_protocol.Circular

-- `SERIAL_BUFFER_SIZE`
abbrev pub serial_buffer_size : ℕ
serial_buffer_size = 2048

-- The calls on the opened port. `read` gives no more bytes than it is asked for, or fails.
pub record Port : Type 1 where
  pub Device : Type 0
  pub read : Device → ℕ → Device × Option (List ℕ)
  pub write : Device → List ℕ → Device
  pub read_le : (d : Device) (n : ℕ) (bytes : List ℕ) → (read d n).1 ≡ some bytes → length bytes ≤ n

module _ (port : Port) where
  open port use {Device}

  -- `handle_` is -1 where the port is not open.
  pub record SerialStream : Type 0 where
    pub is_open : Bool
    pub device : Device
    pub buffer : Circular

  -- The constructor: what `open` returned, and whether `tcgetattr` and `tcsetattr` returned 0.
  unfoldable pub make : List ℕ → Option Device → Device → Bool → Bool → SerialStream
  make storage none closed got set = record {
    is_open = false;
    device = closed;
    buffer = Circular.make storage serial_buffer_size;
  }
  make storage (some device) closed got set = record {
    is_open = if got then set else false;
    device = device;
    buffer = Circular.make storage serial_buffer_size;
  }

  abbrev pub is_valid : SerialStream → Bool
  is_valid s = s.is_open

  -- What one `read` makes of an empty buffer.
  abbrev pub take_in : SerialStream → Device → Option (List ℕ) → SerialStream × ℕ
  take_in s device none = (record s { device = device }, 0)
  take_in s device (some bytes) =
      if ltb 0 (length bytes)
      then (let c = (push_all s.buffer bytes).0 in
          (record s { device = device; buffer = c }, get_size c))
      else (record s { device = device }, 0)

  -- `available`: the port is read where the buffer is empty.
  unfoldable pub available : SerialStream → SerialStream × ℕ
  available s =
      if not (is_valid s)
      then (s, 0)
      else (if s.buffer.is_empty
          then (let (device, got) = port.read s.device serial_buffer_size in take_in s device got)
          else (s, get_size s.buffer))

  -- `read_array`: what it stores through `data`, as many bytes as it returns.
  unfoldable pub read_array : SerialStream → ℕ → SerialStream × List ℕ
  read_array s len =
      if not (is_valid s) || s.buffer.is_empty
      then (s, [])
      else (let av = get_size s.buffer in
          let (c, items) = pop s.buffer (if ltb av len then av else len) in
          (record s { buffer = c }, items))

  unfoldable pub write_array : SerialStream → List ℕ → SerialStream
  write_array s bytes =
      if not (is_valid s) then s else record s { device = port.write s.device bytes }
