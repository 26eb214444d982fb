-- ===== src/Bridge/Tests.antt =====
-- The theorem on remote_serial_bridge/main.cpp at a port and a socket that are lists of bytes.
use haier_protocol.Prelude.{
  ℕ, true, List, [], ◌∷◌, take, drop, length, replicate, length-replicate, Option, none, some,
}
use haier_protocol.Serial.{serial_buffer_size, make}
use haier_protocol.Serial.Tests.{memory_port}
use haier_protocol.Bridge.{Socket, main}
use haier_protocol.Bridge.Recorded.{fresh, recorded_port, recorded_socket}
use haier_protocol.Bridge.Start.{Exits, main-Exits}

-- What can be read.
abbrev memory_socket : Socket
memory_socket = record {
  Peer = List ℕ;
  read_socket = λ p n. (drop n p, some (take n p));
  write_socket = λ p bytes. (p, some (length bytes));
}

-- Two turns, the escape key, and a key that is no longer asked for.
abbrev some_keys : List (Option ℕ)
some_keys = none ∷ none ∷ some 27 ∷ some 65 ∷ []

main-Exits_example :
    let s =
      make
        (recorded_port memory_port)
        (replicate serial_buffer_size 0)
        (some (fresh (10 ∷ 20 ∷ 30 ∷ [], [])))
        (fresh ([], []))
        true
        true in
    Exits memory_port memory_socket 3 (some (7 ∷ 8 ∷ [])) s some_keys (
      main
        (recorded_port memory_port)
        (recorded_socket memory_socket)
        3
        (some (fresh (7 ∷ 8 ∷ [])))
        s
        some_keys)
main-Exits_example =
    main-Exits memory_port memory_socket 3 (some (7 ∷ 8 ∷ [])) (replicate serial_buffer_size 0)
      (some (10 ∷ 20 ∷ 30 ∷ [], [])) ([], []) true true some_keys
      (length-replicate {A = ℕ} serial_buffer_size 0)
