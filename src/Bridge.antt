-- ===== src/Bridge.antt =====
-- tools/remote_serial_bridge/main.cpp, as it is built for Linux: a serial port joined to a socket.
pub mod Escape
pub mod Forward
pub mod Joined
pub mod Recorded
pub mod Start
pub mod Tests
use haier_protocol.Prelude.{
  ℕ, ◌≤◌, ◌≡◌, Bool, true, false, List, [], ◌∷◌, ◌++◌, length, ltb, ◌==◌, if◌then◌else◌, Option,
  none, some,
}
use haier_protocol.Serial.{Port, SerialStream, is_valid, available, read_array, write_array}

-- `SOCKET_BUFFER_SIZE`
abbrev pub socket_buffer_size : ℕ
socket_buffer_size = 2048

-- `read_socket` and `write_socket`, which are the system's `read` and `write`. A negative result is
-- `none`.
pub record Socket : Type 1 where
  pub Peer : Type 0
  pub read_socket : Peer → ℕ → Peer × Option (List ℕ)
  pub write_socket : Peer → List ℕ → Peer × Option ℕ

module _ (port : Port) (socket : Socket) where
  open socket use {Peer}

  -- The variables of `main`, and whether `close_socket` was called.
  pub record Bridge : Type 0 where
    pub app_exiting : Bool
    pub serial_stream : SerialStream port
    pub remote_socket : Peer
    pub closed : Bool

  -- The variables, and what `main` has returned if it has.
  pub record Outcome : Type 0 where
    pub bridge : Bridge
    pub returned : Option ℕ

  abbrev pub close_with : ℕ → Bridge → Outcome
  close_with code b = record { bridge = record b { closed = true }; returned = some code }

  abbrev pub go_on : Bridge → Outcome
  go_on b = record { bridge = b; returned = none }

  -- What `read_socket` returned goes to the port.
  unfoldable pub pass_received : Bridge → Option (List ℕ) → Outcome
  pass_received b none = close_with 1 b
  pass_received b (some bytes) =
      if ltb 0 (length bytes)
      then go_on (record b { serial_stream = write_array port b.serial_stream bytes })
      else go_on b

  unfoldable pub receive : Bridge → Outcome
  receive b =
      let (peer, got) = socket.read_socket b.remote_socket socket_buffer_size in
      pass_received (record b { remote_socket = peer }) got

  -- The result of `write_socket`.
  unfoldable pub after_write : Bridge → Option ℕ → Outcome
  after_write b none = close_with 1 b
  after_write b (some written) = receive b

  -- A turn without a key.
  unfoldable pub forward : Bridge → Outcome
  forward b =
      let (s1, size) = available port b.serial_stream in
      let (s2, bytes) = read_array port s1 size in
      let b = record b { serial_stream = s2 } in
      if ltb 0 (length bytes)
      then (let (peer, res) = socket.write_socket b.remote_socket bytes in
          after_write (record b { remote_socket = peer }) res)
      else receive b

  -- A turn of the loop; the argument is what `get_kb_hit` gave.
  unfoldable pub turn : Option ℕ → Bridge → Outcome
  turn (some kb) b = go_on (if kb == 27 then record b { app_exiting = true } else b)
  turn none b = forward b

  -- What follows a turn, unless `main` has returned in it.
  unfoldable pub and_then : Option ℕ → Outcome → Outcome → Outcome
  and_then (some code) o later = o
  and_then none o later = later

  -- The loop, where the list is what `get_kb_hit` gives in its turns. Without a result it goes on.
  unfoldable pub bridge_loop : List (Option ℕ) → Bridge → Outcome
  bridge_loop [] b = if b.app_exiting then close_with 0 b else go_on b
  bridge_loop (kb ∷ keys) b =
      let o = turn kb b in
      let later = bridge_loop keys o.bridge in
      if b.app_exiting then close_with 0 b else and_then o.returned o later

  -- What `main` has returned, if it has, whether it has called `close_socket`, and its port and socket.
  pub record Exit : Type 0 where
    pub returned : Option ℕ
    pub socket_closed : Bool
    pub serial_stream : SerialStream port
    pub remote_socket : Option Peer

  -- `main` behind `open_socket`, with what that returned.
  unfoldable pub connected : Option Peer → SerialStream port → List (Option ℕ) → Exit
  connected none s keys = record {
    returned = some 1;
    socket_closed = true;
    serial_stream = s;
    remote_socket = none;
  }
  connected (some peer) s keys =
      let o =
        bridge_loop keys
          record { app_exiting = false; serial_stream = s; remote_socket = peer; closed = false } in
      if is_valid port s
      then record {
        returned = o.returned;
        socket_closed = o.bridge.closed;
        serial_stream = o.bridge.serial_stream;
        remote_socket = some o.bridge.remote_socket;
      }
      else record {
        returned = some 1;
        socket_closed = false;
        serial_stream = s;
        remote_socket = some peer;
      }

  -- `main`: how many arguments, what `open_socket` returns, and the port that is opened.
  unfoldable pub main : ℕ → Option Peer → SerialStream port → List (Option ℕ) → Exit
  main argc socket_res s keys = if argc == 3 then connected socket_res s keys else record {
    returned = some 0;
    socket_closed = false;
    serial_stream = s;
    remote_socket = socket_res;
  }
