-- ===== src/Bridge/Recorded.antt =====
-- The port and the socket of remote_serial_bridge/main.cpp, with what their calls were given and gave.
use haier_protocol.Prelude.{ℕ, ◌+◌, List, [], ◌++◌, Option, none, some}
use haier_protocol.Serial.{Port}
use haier_protocol.Serial.Lossless.{brought}
use haier_protocol.Bridge.{Socket}

-- A device, how many calls have read from it, all the bytes that came from it, and all that were passed
-- to it.
pub record Recorded (D : Type 0) : Type 0 where
  pub device : D
  pub reads : ℕ
  pub came : List ℕ
  pub passed : List ℕ

abbrev pub fresh : {D : Type 0} → D → Recorded D
fresh d = record { device = d; reads = 0; came = []; passed = [] }

abbrev pub if_fresh : {D : Type 0} → Option D → Option (Recorded D)
if_fresh none = none
if_fresh (some d) = some (fresh d)

-- The same port, recorded by its own calls.
abbrev pub recorded_port : Port → Port
recorded_port port = record {
  Device = Recorded port.Device;
  read = λ d n.
      let (device, got) = port.read d.device n in
      (record d { device = device; reads = d.reads + 1; came = d.came ++ brought got }, got);
  write = λ d bytes. record d { device = port.write d.device bytes; passed = d.passed ++ bytes };
  read_le = λ d n bytes e. port.read_le d.device n bytes e;
}

-- The same socket.
abbrev pub recorded_socket : Socket → Socket
recorded_socket socket = record {
  Peer = Recorded socket.Peer;
  read_socket = λ p n.
      let (peer, got) = socket.read_socket p.device n in
      (record p { device = peer; reads = p.reads + 1; came = p.came ++ brought got }, got);
  write_socket = λ p bytes.
      let (peer, res) = socket.write_socket p.device bytes in
      (record p { device = peer; passed = p.passed ++ bytes }, res);
}
