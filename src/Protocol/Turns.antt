-- ===== src/Protocol/Turns.antt =====
-- haier_protocol.cpp, `loop`: the two turns of an attempt at a request.
use haier_protocol.Prelude.{
  ℕ, ◌+◌, ◌-◌, ◌≤◌, ◌<◌, ◌≡◌, ap, ◌∙◌, Bool, false, List, [], ◌∷◌, arith, length, ltb, ◌==◌,
  if_true, if_false,
}
use haier_protocol.Message.Payload.{payload, IsWellFormed}
use haier_protocol.Frame.Build
use haier_protocol.Frame.Wire.{wire}
use haier_protocol.Stream.{ProtocolStream}
use haier_protocol.Transport.State.{pop, pop_queue}
use haier_protocol.Protocol.State.{
  Protocol, idle, waiting_for_answer, OutgoingQueueItem, Client, Call, find,
}
use haier_protocol.Protocol.Calls.{apply_all}
use haier_protocol.Protocol.Write.{write_message_lem}
use haier_protocol.Protocol.Attempts.{tried, send_outgoing-sent, wait_answer-late}
use haier_protocol.Protocol.Loop.{
  found_or, run_timeout_handler, handle_incoming, handle_popped, send_outgoing, answer_timeout,
  dispatch,
}
use haier_protocol.Protocol.Silent.{apply_all-silent}

-- The times of two turns: the request is due in the first, and its answer is overdue in the second.
pub record Attempt : Type 0 where
  pub sent_at : ℕ
  pub written_at : ℕ
  pub checked_at : ℕ

-- the request's bytes
abbrev pub wire_of : OutgoingQueueItem → List ℕ
wire_of msg = wire (
    Build.make msg.message.frame_type (payload msg.message) (length (payload msg.message))
      msg.use_crc)

-- A request that the wire can carry and that asks for an answer.
pub record IsSendable (msg : OutgoingQueueItem) : Type 0 where
  pub well_formed : IsWellFormed msg.message
  pub few : length (payload msg.message) ≤ 233
  pub fits : length (wire_of msg) ≤ 255
  pub expects : msg.no_answer ≡ false

-- An idle handler with the request at the front and nothing received, outside every handler.
pub record IsAsking (msg : OutgoingQueueItem) (rest : List OutgoingQueueItem) (p : Protocol)
    : Type 0 where
  pub queue : p.outgoing_messages ≡ msg ∷ rest
  pub idles : p.state ≡ idle
  pub received : p.transport.incoming_queue ≡ []
  pub quiet : p.processing_message ≡ false

-- after the first turn of an attempt
abbrev pub waits : Attempt → OutgoingQueueItem → List OutgoingQueueItem → Protocol → Protocol
waits t msg rest p = record p {
  cooldown_time_point = t.written_at + p.cooldown_interval;
  last_message_type = msg.message.frame_type;
  outgoing_messages = tried msg ∷ rest;
  state = waiting_for_answer;
  answer_time_point = t.sent_at + p.answer_timeout_interval;
  retry_time_point = t.sent_at + msg.retry_interval;
}

-- After the last attempt, when the timeout handler is called: the request is gone.
abbrev pub given_up : Attempt → OutgoingQueueItem → List OutgoingQueueItem → Protocol → Protocol
given_up t msg rest p = record (waits t msg rest p) {
  outgoing_messages = rest;
  retry_time_point = t.checked_at;
}

-- The calls of the timeout handler that is set for the request's type, or of the default one.
abbrev pub timeout_calls : Client → OutgoingQueueItem → Protocol → List Call
timeout_calls client msg p =
    let type = msg.message.frame_type in
    (run_timeout_handler client
      (found_or (find type p.timeout_handlers_map) p.default_timeout_handler) type).0

module _ (stream : ProtocolStream) (garbage : ℕ → List ℕ) (client : Client) where
  open stream use {State}

  -- The steps of two turns of `loop`, without its reading.
  unfoldable pub attempt : Attempt → State → Protocol → State × Protocol
  attempt t s p =
      let (s, p) = dispatch stream garbage client t.sent_at t.written_at p.state s p in
      dispatch stream garbage client t.checked_at t.checked_at p.state s p

  handle_incoming-nothing :
      (s : State) (p : Protocol)
      → p.transport.incoming_queue ≡ []
      → handle_incoming stream garbage client s p ≡ (s, p)
  unfolding handle_incoming handle_popped pop
  handle_incoming-nothing s p e =
      let few = if_false _ _ (ap (λ q. ltb 1 (length q)) e) in
      ap
        (λ t.
          let (t, frame) = pop t in
          handle_popped stream garbage client frame s (record p { transport = t }))
        few
      ∙ ap
          (λ q.
            let (t, frame) = pop_queue q p.transport in
            handle_popped stream garbage client frame s (record p { transport = t }))
          e

  pub first_turn :
      (t : Attempt) (msg : OutgoingQueueItem) (rest : List OutgoingQueueItem) (s : State)
      (p : Protocol)
      → ((n : ℕ) → length (garbage n) ≡ n)
      → IsSendable msg
      → IsAsking msg rest p
      → p.cooldown_time_point ≤ t.sent_at
      → p.retry_time_point ≤ t.sent_at
      → 0 < msg.number_of_retries
      → dispatch stream garbage client t.sent_at t.written_at p.state s p
        ≡ (stream.write_array s (wire_of msg), waits t msg rest p)
  unfolding dispatch
  first_turn t msg rest s p h m a cool ready left =
      let written =
        (write_message_lem stream garbage t.written_at msg.message msg.use_crc s p h
            m.well_formed).0
          m.few m.fits in
      ap (λ state. dispatch stream garbage client t.sent_at t.written_at state s p) a.idles
      ∙ ap
          (λ (r : State × Protocol).
            send_outgoing stream garbage client t.sent_at t.written_at r.0 r.1)
          (handle_incoming-nothing s p a.received)
      ∙ send_outgoing-sent stream garbage client t.sent_at t.written_at msg rest s p a.queue cool
          ready left m.expects (ap (λ (r : State × Protocol × Bool). r.2) written)
      ∙ ap
          (λ (r : State × Protocol × Bool). (
            r.0,
            record r.1 {
              last_message_type = msg.message.frame_type;
              outgoing_messages = tried msg ∷ rest;
              state = waiting_for_answer;
              answer_time_point = t.sent_at + r.1.answer_timeout_interval;
              retry_time_point = t.sent_at + msg.retry_interval;
            },
          ))
          written

  -- An attempt that is not the last leaves the handler asking again.
  pub attempt-again :
      (t : Attempt) (msg : OutgoingQueueItem) (rest : List OutgoingQueueItem) (s : State)
      (p : Protocol)
      → ((n : ℕ) → length (garbage n) ≡ n)
      → IsSendable msg
      → IsAsking msg rest p
      → p.cooldown_time_point ≤ t.sent_at
      → p.retry_time_point ≤ t.sent_at
      → t.sent_at + p.answer_timeout_interval < t.checked_at
      → 1 < msg.number_of_retries
      → attempt t s p
        ≡ (stream.write_array s (wire_of msg), record (waits t msg rest p) { state = idle })
  unfolding attempt dispatch answer_timeout
  attempt-again t msg rest s p h m a cool ready over left =
      let s1 = stream.write_array s (wire_of msg) in
      ap
        (λ (r : State × Protocol).
          dispatch stream garbage client t.checked_at t.checked_at r.1.state r.0 r.1)
        (first_turn t msg rest s p h m a cool ready (omega arith))
      ∙ wait_answer-late stream garbage client t.checked_at s1 (waits t msg rest p) over
      ∙ ap (λ (r : State × Protocol). (r.0, record r.1 { state = idle }))
          (if_false {b = msg.number_of_retries - 1 == 0} _ _ (ground (arith, left)))

  -- The last attempt gives the request up: the timeout handler's calls are carried out without it, and
  -- write nothing.
  pub attempt-last :
      (t : Attempt) (msg : OutgoingQueueItem) (rest : List OutgoingQueueItem) (s : State)
      (p : Protocol)
      → ((n : ℕ) → length (garbage n) ≡ n)
      → IsSendable msg
      → IsAsking msg rest p
      → p.cooldown_time_point ≤ t.sent_at
      → p.retry_time_point ≤ t.sent_at
      → t.sent_at + p.answer_timeout_interval < t.checked_at
      → msg.number_of_retries ≡ 1
      → let s1 = stream.write_array s (wire_of msg) in
        attempt t s p ≡ (
          s1,
          record (apply_all stream garbage
              (timeout_calls client msg p)
              s1
              (given_up t msg rest p)).1 { state = idle },
        )
  unfolding attempt dispatch answer_timeout
  attempt-last t msg rest s p h m a cool ready over one =
      let s1 = stream.write_array s (wire_of msg) in
      let p1 = waits t msg rest p in
      let gone = given_up t msg rest p in
      let calls = timeout_calls client msg p in
      ap
        (λ (r : State × Protocol).
          dispatch stream garbage client t.checked_at t.checked_at r.1.state r.0 r.1)
        (first_turn t msg rest s p h m a cool ready (omega arith))
      ∙ wait_answer-late stream garbage client t.checked_at s1 p1 over
      ∙ ap (λ (r : State × Protocol). (r.0, record r.1 { state = idle }))
          (if_true {b = msg.number_of_retries - 1 == 0} _ _ (ground (arith, one)))
      ∙ ap (λ s2. (s2, record (apply_all stream garbage calls s1 gone).1 { state = idle }))
          (apply_all-silent stream garbage calls s1 gone a.quiet)
