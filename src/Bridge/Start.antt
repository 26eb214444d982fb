-- ===== src/Bridge/Start.antt =====
-- remote_serial_bridge/main.cpp, `main`: from the opening of the port to its end.
use haier_protocol.Prelude.{
  ℕ, ◌≡◌, ◌≢◌, refl, sym, ◌∙◌, Bool, true, false, List, [], append-nil, Option, none, some, length,
  ◌==◌, if-both, arith,
}
use haier_protocol.Circular
use haier_protocol.Circular.Contents.{contents, make-IsValid}
use haier_protocol.Serial.{Port, SerialStream, serial_buffer_size, make}
use haier_protocol.Serial.Lossless.{IsReady}
use haier_protocol.Bridge.{Socket, Exit, connected, main}
use haier_protocol.Bridge.Recorded.{Recorded, fresh, if_fresh, recorded_port, recorded_socket}
use haier_protocol.Bridge.Joined.{has_returned}
use haier_protocol.Bridge.Escape.{escapes, Ends, bridge_loop-Ends}
use haier_protocol.Bridge.Forward.{asked, bridge_loop-Forwards}

-- What passed through a port and a socket; where there is no socket, nothing passed through the port.
abbrev pub Balanced : {D P : Type 0} → Recorded D → Option (Recorded P) → Type 0
Balanced d none = (d.came ≡ []) × (d.passed ≡ [])
Balanced d (some p) = (p.passed ≡ d.came) × (d.passed ≡ p.came)

abbrev pub socket_reads : {P : Type 0} → Option (Recorded P) → ℕ
socket_reads none = 0
socket_reads (some p) = p.reads

module _ (port : Port) (socket : Socket) where
  abbrev P : Port
  P = recorded_port port

  abbrev S : Socket
  S = recorded_socket socket

  -- What `main` does with three arguments, or another number.
  pub record Exits (argc : ℕ) (socket_res : Option socket.Peer) (s : SerialStream P)
      (keys : List (Option ℕ)) (r : Exit P S) : Type 0 where
    pub balanced : Balanced r.serial_stream.device r.remote_socket
    pub without_socket : argc ≡ 3 → socket_res ≡ none → r.returned ≡ some 1
    pub without_port : argc ≡ 3 → s.is_open ≡ false → r.returned ≡ some 1
    pub closed_at : argc ≡ 3 → s.is_open ≡ true → r.socket_closed ≡ has_returned r.returned
    pub ends : argc ≡ 3 → s.is_open ≡ true → socket_res ≢ none → Ends (escapes keys) r.returned
    pub counted :
        argc ≡ 3
        → s.is_open ≡ true
        → r.returned ≡ none
        → (r.serial_stream.device.reads ≡ asked keys) × (socket_reads r.remote_socket ≡ asked keys)

  -- A stream of which nothing is held back and through which nothing has passed.
  record IsNew (s : SerialStream P) : Type 0 where
    ready : IsReady P s
    empty : contents s.buffer ≡ []
    reads : s.device.reads ≡ 0
    came : s.device.came ≡ []
    passed : s.device.passed ≡ []

  -- A stream that was made, open or not.
  made :
      (storage : List ℕ) (opened : Option port.Device) (closed : port.Device) (got set : Bool)
      → length storage ≡ serial_buffer_size
      → IsNew (make P storage (if_fresh opened) (fresh closed) got set)
  unfolding make Circular.make
  made storage none closed got set e =
      let (valid, empty) = make-IsValid storage serial_buffer_size e (omega arith) in
      record {
        ready = record { valid = valid; wide = refl };
        empty = empty;
        reads = refl;
        came = refl;
        passed = refl;
      }
  made storage (some device) closed got set e =
      let (valid, empty) = make-IsValid storage serial_buffer_size e (omega arith) in
      record {
        ready = record { valid = valid; wide = refl };
        empty = empty;
        reads = refl;
        came = refl;
        passed = refl;
      }

  not_connected :
      (s : SerialStream P) (socket_res : Option socket.Peer)
      → IsNew s
      → Balanced s.device (if_fresh socket_res)
  not_connected s none new = (new.came, new.passed)
  not_connected s (some peer) new = (sym new.came, new.passed)

  connected-Exits :
      (socket_res : Option socket.Peer) (s : SerialStream P) (keys : List (Option ℕ))
      → IsNew s
      → Exits 3 socket_res s keys (connected P S (if_fresh socket_res) s keys)
  unfolding connected
  connected-Exits none s keys new = record {
    balanced = not_connected s none new;
    without_socket = λ _ _. refl;
    without_port = λ _ _. refl;
    closed_at = λ _ _. refl;
    ends = λ _ _ none_given. absurd (none_given refl);
    counted = λ _ _ e. cc;
  }
  connected-Exits (some peer) s keys new =
      if-both (Exits 3 (some peer) s keys) s.is_open
        (λ opened.
          let f =
            bridge_loop-Forwards port socket keys 0 0
              record {
                app_exiting = false;
                serial_stream = s;
                remote_socket = fresh peer;
                closed = false;
              }
              record {
                ready = new.ready;
                opened = opened;
                empty = new.empty;
                to_socket = sym new.came;
                to_serial = append-nil _ ∙ new.passed;
              }
              refl (new.reads, refl) in
          record {
            balanced =
                (sym (append-nil _) ∙ f.joined.to_socket, sym (append-nil _) ∙ f.joined.to_serial);
            without_socket = λ _ e. cc;
            without_port = λ _ e. cc;
            closed_at = λ _ _. f.closed_at;
            ends = λ _ _ _. bridge_loop-Ends P S keys _;
            counted = λ _ _ going.
                (omega (arith, (f.counted going).0), omega (arith, (f.counted going).1));
          })
        (λ shut. record {
          balanced = not_connected s (some peer) new;
          without_socket = λ _ _. refl;
          without_port = λ _ _. refl;
          closed_at = λ _ e. cc;
          ends = λ _ e. cc;
          counted = λ _ _ e. cc;
        })

  -- The bridge as a whole, from a port that is opened or not, for any arguments, keys and behaviour of
  -- the port and the socket, which are recorded by their own calls: all that came from the port's `read`
  -- was passed to the socket's `write`, in order, and all that came from the socket's `read` was passed
  -- to the port's `write`. With three arguments, `main` returns 1 where there is no socket or no port;
  -- where there is a port, the socket is closed exactly where `main` has returned; and where there are
  -- both, it returns 0 only if the escape key was hit, it goes on only if that was not hit, and while it
  -- goes on each of the two was read once in every turn without a key.
  pub main-Exits :
      (argc : ℕ) (socket_res : Option socket.Peer) (storage : List ℕ) (opened : Option port.Device)
      (closed : port.Device) (got set : Bool) (keys : List (Option ℕ))
      → length storage ≡ serial_buffer_size
      → let s = make P storage (if_fresh opened) (fresh closed) got set in
        Exits argc socket_res s keys (main P S argc (if_fresh socket_res) s keys)
  unfolding main
  main-Exits argc socket_res storage opened closed got set keys e =
      let s = make P storage (if_fresh opened) (fresh closed) got set in
      let new = made storage opened closed got set e in
      let r = connected-Exits socket_res s keys new in
      if-both (Exits argc socket_res s keys) (argc == 3)
        (λ _. record {
          balanced = r.balanced;
          without_socket = λ _. r.without_socket refl;
          without_port = λ _. r.without_port refl;
          closed_at = λ _. r.closed_at refl;
          ends = λ _. r.ends refl;
          counted = λ _. r.counted refl;
        })
        (λ other. record {
          balanced = not_connected s socket_res new;
          without_socket = λ three _. absurd (ground (arith, three, other));
          without_port = λ three _. absurd (ground (arith, three, other));
          closed_at = λ three _. absurd (ground (arith, three, other));
          ends = λ three _ _. absurd (ground (arith, three, other));
          counted = λ three _ _. absurd (ground (arith, three, other));
        })
