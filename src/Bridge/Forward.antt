-- ===== src/Bridge/Forward.antt =====
-- remote_serial_bridge/main.cpp: what the loop moves between the port and the socket.
use haier_protocol.Prelude.{
  ℕ, ◌+◌, ◌≡◌, refl, sym, ap, ◌∙◌, false, List, [], ◌∷◌, ◌++◌, arith, append-nil, length,
  empty-length, ltb, ◌==◌, if◌then◌else◌, Option, none, some, if-both,
}
use haier_protocol.Serial.{Port, available, read_array}
use haier_protocol.Bridge.{
  Socket, Bridge, Outcome, close_with, go_on, forward, turn, and_then, bridge_loop,
}
use haier_protocol.Bridge.Joined.{
  has_returned, IsJoined, Reads, Forwards, flags-IsJoined, drained, receive-Forwards,
  after_write-Forwards,
}
use haier_protocol.Bridge.Recorded.{Recorded, recorded_port, recorded_socket}

-- The turns in which no key was hit.
abbrev pub asked : List (Option ℕ) → ℕ
asked [] = 0
asked (none ∷ keys) = 1 + asked keys
asked (some kb ∷ keys) = asked keys

module _ (port : Port) (socket : Socket) where
  abbrev P : Port
  P = recorded_port port

  abbrev S : Socket
  S = recorded_socket socket

  forward-Forwards :
      (m n : ℕ) (b : Bridge P S)
      → IsJoined port socket [] [] b
      → b.closed ≡ false
      → Reads port socket m n b
      → Forwards port socket (m + 1) (n + 1) (forward P S b)
  unfolding forward
  forward-Forwards m n b j not_closed reads =
      let s = b.serial_stream in
      let (ready, opened, empty, all, device) = drained port socket s j.ready j.opened j.empty in
      let (s2, bytes) = read_array P (available P s).0 (available P s).1 in
      let came : b.remote_socket.passed ++ bytes ≡ s2.device.came =
        ap (λ l. l ++ bytes) (sym (append-nil _) ∙ j.to_socket)
        ∙ ap (λ l. s.device.came ++ l) all
        ∙ sym (ap (λ (d : Recorded port.Device). d.came) device) in
      let back : s2.device.passed ++ [] ≡ b.remote_socket.came =
        ap (λ (d : Recorded port.Device). d.passed ++ []) device ∙ j.to_serial in
      let read : s2.device.reads ≡ m + 1 =
        ap (λ (d : Recorded port.Device). d.reads) device ∙ ap (λ k. k + 1) reads.0 in
      if-both (Forwards port socket (m + 1) (n + 1)) (ltb 0 (length bytes))
        (λ _.
          after_write-Forwards port socket (m + 1) n _ _
            record {
              ready = ready;
              opened = opened;
              empty = empty;
              to_socket = append-nil _ ∙ came;
              to_serial = back;
            }
            not_closed (read, reads.1))
        (λ none_read.
          let nothing : bytes ≡ [] = empty-length bytes (ground (arith, none_read)) in
          receive-Forwards port socket (m + 1) n _
            record {
              ready = ready;
              opened = opened;
              empty = empty;
              to_socket = ap (λ l. b.remote_socket.passed ++ l) (sym nothing) ∙ came;
              to_serial = back;
            }
            not_closed (read, reads.1))

  turn-Forwards :
      (kb : Option ℕ) (m n : ℕ) (b : Bridge P S)
      → IsJoined port socket [] [] b
      → b.closed ≡ false
      → Reads port socket m n b
      → Forwards port socket (m + asked (kb ∷ [])) (n + asked (kb ∷ [])) (turn P S kb b)
  unfolding turn
  turn-Forwards none m n b j not_closed reads = forward-Forwards m n b j not_closed reads
  turn-Forwards (some kb) m n b j not_closed reads =
      if-both (λ b'. Forwards port socket (m + 0) (n + 0) (go_on P S b')) (kb == 27)
        (λ _. record {
          joined = flags-IsJoined port socket b _ _ j;
          closed_at = not_closed;
          counted = λ _. (omega (arith, reads.0), omega (arith, reads.1));
        })
        (λ _. record {
          joined = j;
          closed_at = not_closed;
          counted = λ _. (omega (arith, reads.0), omega (arith, reads.1));
        })

  and_then-Forwards :
      (res : Option ℕ) (m n : ℕ) (o later : Outcome P S)
      → o.returned ≡ res
      → IsJoined port socket [] [] o.bridge
      → o.bridge.closed ≡ has_returned o.returned
      → (o.returned ≡ none → Forwards port socket m n later)
      → Forwards port socket m n (and_then P S res o later)
  unfolding and_then
  and_then-Forwards (some code) m n o later e j closed_at k = record {
    joined = j;
    closed_at = closed_at;
    counted = λ none_yet. cc;
  }
  and_then-Forwards none m n o later e j closed_at k = k e

  stops :
      (m n : ℕ) (b : Bridge P S) (o : Outcome P S)
      → IsJoined port socket [] [] b
      → Forwards port socket m n o
      → Forwards port socket m n (if b.app_exiting then close_with P S 0 b else o)
  stops m n b o j h =
      if-both (Forwards port socket m n) b.app_exiting {x = close_with P S 0 b} {y = o}
        (λ _. record {
          joined = flags-IsJoined port socket b _ _ j;
          closed_at = refl;
          counted = λ e. cc;
        })
        (λ _. h)

  asked_cons :
      (kb : Option ℕ) (keys : List (Option ℕ)) → asked (kb ∷ keys) ≡ asked (kb ∷ []) + asked keys
  asked_cons none keys = omega arith
  asked_cons (some kb) keys = omega arith

  -- Over any turns of the bridge's loop, on an open port from which nothing is held back, and
  -- whatever the keyboard, the port and the socket do: all that came from the port was passed to the
  -- socket, in order, and all that came from the socket was passed to the port; the socket is closed
  -- exactly where `main` has returned; and where it has not, the port and the socket were each read
  -- once in every turn without a key.
  pub bridge_loop-Forwards :
      (keys : List (Option ℕ)) (m n : ℕ) (b : Bridge P S)
      → IsJoined port socket [] [] b
      → b.closed ≡ false
      → Reads port socket m n b
      → Forwards port socket (m + asked keys) (n + asked keys) (bridge_loop P S keys b)
  unfolding bridge_loop
  bridge_loop-Forwards [] m n b j not_closed reads = stops (m + 0) (n + 0) b _ j record {
    joined = j;
    closed_at = not_closed;
    counted = λ _. (omega (arith, reads.0), omega (arith, reads.1));
  }
  bridge_loop-Forwards (kb ∷ keys) m n b j not_closed reads =
      let o = turn P S kb b in
      let first = turn-Forwards kb m n b j not_closed reads in
      stops _ _ b _ j (
        and_then-Forwards o.returned _ _ o (bridge_loop P S keys o.bridge) refl first.joined
          first.closed_at
          (λ e.
            let later =
              bridge_loop-Forwards keys (m + asked (kb ∷ [])) (n + asked (kb ∷ [])) o.bridge
                first.joined (first.closed_at ∙ ap has_returned e) (first.counted e) in
            record {
              joined = later.joined;
              closed_at = later.closed_at;
              counted = λ going.
                  let (port_reads, socket_reads) = later.counted going in
                  (
                    omega (arith, port_reads, asked_cons kb keys),
                    omega (arith, socket_reads, asked_cons kb keys),
                  );
            }))
