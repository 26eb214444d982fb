-- ===== src/Bridge/Joined.antt =====
-- remote_serial_bridge/main.cpp: what one turn of the loop moves between the port and the socket, each
-- recorded by its own calls.
use haier_protocol.Prelude.{
  ℕ, ◌+◌, ◌≡◌, refl, sym, ap, ◌∙◌, Bool, true, false, List, [], ◌++◌, arith, append-nil, length,
  empty-length, length-append, ltb, Option, none, some, if-both,
}
use haier_protocol.Circular.Validity.{is_empty_iff_size}
use haier_protocol.Circular.Contents.{contents, length-contents}
use haier_protocol.Serial.{Port, SerialStream, serial_buffer_size, available, read_array}
use haier_protocol.Serial.Lossless.{
  IsReady, brought, fetched, fetched-eq, available-Fetches, available-device, read_array-Takes,
  read_array-device, write_array-buffer, write_array-device,
}
use haier_protocol.Bridge.{
  Socket, Bridge, Outcome, socket_buffer_size, pass_received, receive, after_write,
}
use haier_protocol.Bridge.Recorded.{Recorded, recorded_port, recorded_socket}

abbrev pub has_returned : Option ℕ → Bool
has_returned none = false
has_returned (some code) = true

module _ (port : Port) (socket : Socket) where
  abbrev pub P : Port
  P = recorded_port port

  abbrev pub S : Socket
  S = recorded_socket socket

  -- The port is open and nothing is held back. `out` has come from the port and is still to be passed
  -- to the socket, `back` has come from the socket and is still to be passed to the port.
  pub record IsJoined (out back : List ℕ) (b : Bridge P S) : Type 0 where
    pub ready : IsReady P b.serial_stream
    pub opened : b.serial_stream.is_open ≡ true
    pub empty : contents b.serial_stream.buffer ≡ []
    pub to_socket : b.remote_socket.passed ++ out ≡ b.serial_stream.device.came
    pub to_serial : b.serial_stream.device.passed ++ back ≡ b.remote_socket.came

  -- How often the port and the socket have been read.
  abbrev pub Reads : ℕ → ℕ → Bridge P S → Type 0
  Reads m n b = (b.serial_stream.device.reads ≡ m) × (b.remote_socket.reads ≡ n)

  pub record Forwards (m n : ℕ) (o : Outcome P S) : Type 0 where
    pub joined : IsJoined [] [] o.bridge
    pub closed_at : o.bridge.closed ≡ has_returned o.returned
    pub counted : o.returned ≡ none → Reads m n o.bridge

  -- With other flags.
  pub flags-IsJoined :
      {out back : List ℕ} (b : Bridge P S) (exiting closed : Bool)
      → IsJoined out back b
      → IsJoined out back (record b { app_exiting = exiting; closed = closed })
  flags-IsJoined b exiting closed j = record {
    ready = j.ready;
    opened = j.opened;
    empty = j.empty;
    to_socket = j.to_socket;
    to_serial = j.to_serial;
  }

  -- A stream after `available` and a `read_array` of as much as it returned.
  pub drained :
      (s : SerialStream P)
      → IsReady P s
      → s.is_open ≡ true
      → contents s.buffer ≡ []
      → let (s2, bytes) = read_array P (available P s).0 (available P s).1 in
        IsReady P s2
        × (s2.is_open ≡ true)
        × (contents s2.buffer ≡ [])
        × (bytes ≡ brought (P.read s.device serial_buffer_size).1)
        × (s2.device ≡ (P.read s.device serial_buffer_size).0)
  drained s r e none_held =
      let (ready1, held1, count, same1) = (available-Fetches P s r).0 e in
      let s1 = (available P s).0 in
      let (ready2, held2, taken, same2) =
        read_array-Takes P s1 (available P s).1 ready1 (same1 ∙ e) in
      let (s2, bytes) = read_array P s1 (available P s).1 in
      let left : contents s2.buffer ≡ [] =
        empty-length (contents s2.buffer) (
          grind (arith, length-append bytes (contents s2.buffer), ap length held2, taken, count)) in
      let empty : s.buffer.is_empty ≡ true =
        (is_empty_iff_size r.valid).1 (sym (length-contents s.buffer) ∙ ap length none_held) in
      (
        ready2,
        same2 ∙ same1 ∙ e,
        left,
        sym (append-nil bytes)
            ∙ ap (λ l. bytes ++ l) (sym left)
            ∙ held2
            ∙ held1
            ∙ ap (λ l. l ++ fetched P s) none_held
            ∙ fetched-eq P s e empty,
        read_array-device P s1 (available P s).1 ∙ available-device P s e empty,
      )

  pass_received-Forwards :
      (m n : ℕ) (b : Bridge P S) (got : Option (List ℕ))
      → IsJoined [] (brought got) b
      → b.closed ≡ false
      → Reads m n b
      → Forwards m n (pass_received P S b got)
  unfolding pass_received
  pass_received-Forwards m n b none j not_closed reads = record {
    joined = flags-IsJoined b _ _ j;
    closed_at = refl;
    counted = λ e. cc;
  }
  pass_received-Forwards m n b (some bytes) j not_closed reads =
      if-both (Forwards m n) (ltb 0 (length bytes))
        (λ _.
          let s = b.serial_stream in
          let (ready, held, same) = write_array-buffer P s bytes j.ready in
          let written = write_array-device P s bytes j.opened in
          record {
            joined = record {
              ready = ready;
              opened = same ∙ j.opened;
              empty = held ∙ append-nil _ ∙ j.empty;
              to_socket = j.to_socket ∙ sym (ap (λ (d : Recorded port.Device). d.came) written);
              to_serial =
                  append-nil _ ∙ ap (λ (d : Recorded port.Device). d.passed) written ∙ j.to_serial;
            };
            closed_at = not_closed;
            counted = λ _. (ap (λ (d : Recorded port.Device). d.reads) written ∙ reads.0, reads.1);
          })
        (λ none_read.
          let nothing : bytes ≡ [] = empty-length bytes (ground (arith, none_read)) in
          record {
            joined = record {
              ready = j.ready;
              opened = j.opened;
              empty = j.empty;
              to_socket = j.to_socket;
              to_serial = ap (λ l. b.serial_stream.device.passed ++ l) (sym nothing) ∙ j.to_serial;
            };
            closed_at = not_closed;
            counted = λ _. reads;
          })

  pub receive-Forwards :
      (m n : ℕ) (b : Bridge P S)
      → IsJoined [] [] b
      → b.closed ≡ false
      → Reads m n b
      → Forwards m (n + 1) (receive P S b)
  unfolding receive
  receive-Forwards m n b j not_closed reads =
      let (peer, got) = S.read_socket b.remote_socket socket_buffer_size in
      pass_received-Forwards m (n + 1) (record b { remote_socket = peer }) got
        record {
          ready = j.ready;
          opened = j.opened;
          empty = j.empty;
          to_socket = j.to_socket;
          to_serial = ap (λ l. l ++ brought got) (sym (append-nil _) ∙ j.to_serial);
        }
        not_closed (reads.0, ap (λ k. k + 1) reads.1)

  pub after_write-Forwards :
      (m n : ℕ) (b : Bridge P S) (res : Option ℕ)
      → IsJoined [] [] b
      → b.closed ≡ false
      → Reads m n b
      → Forwards m (n + 1) (after_write P S b res)
  unfolding after_write
  after_write-Forwards m n b none j not_closed reads = record {
    joined = flags-IsJoined b _ _ j;
    closed_at = refl;
    counted = λ e. cc;
  }
  after_write-Forwards m n b (some written) j not_closed reads =
      receive-Forwards m n b j not_closed reads
