-- ===== src/Protocol/Attempts.antt =====
-- haier_protocol.cpp, `loop` on a request that is not answered: it is sent, its time runs out, and it
-- is sent again or given up.
use haier_protocol.Prelude.{
  ℕ, ◌+◌, ◌-◌, ◌≤◌, ◌<◌, ◌≡◌, ap, ◌∙◌, true, false, List, ◌∷◌, arith, leb, ◌&&◌, if_true, if_false,
  lt→ltb,
}
use haier_protocol.Stream.{ProtocolStream}
use haier_protocol.Protocol.State.{Protocol, waiting_for_answer, OutgoingQueueItem, Client}
use haier_protocol.Protocol.Calls.{write_message}
use haier_protocol.Protocol.Loop.{send_front, send_outgoing, answer_timeout, wait_answer}

-- one attempt fewer
abbrev pub tried : OutgoingQueueItem → OutgoingQueueItem
tried msg = record msg { number_of_retries = msg.number_of_retries - 1 }

module _ (stream : ProtocolStream) (garbage : ℕ → List ℕ) (client : Client) where
  open stream use {State}

  -- the handler after the front of the queue was sent
  abbrev pub awaiting :
      ℕ → ℕ → OutgoingQueueItem → List OutgoingQueueItem → State → Protocol → Protocol
  awaiting now later msg rest s p =
      let q = (write_message stream garbage later msg.message msg.use_crc s p).1 in
      record q {
        last_message_type = msg.message.frame_type;
        outgoing_messages = tried msg ∷ rest;
        state = waiting_for_answer;
        answer_time_point = now + q.answer_timeout_interval;
        retry_time_point = now + msg.retry_interval;
      }

  send_front-sent :
      (now later : ℕ) (msg : OutgoingQueueItem) (rest : List OutgoingQueueItem) (s : State)
      (p : Protocol)
      → 0 < msg.number_of_retries
      → msg.no_answer ≡ false
      → (write_message stream garbage later msg.message msg.use_crc s p).2 ≡ true
      → send_front stream garbage client now later (msg ∷ rest) s p ≡ (
        (write_message stream garbage later msg.message msg.use_crc s p).0,
        awaiting now later msg rest s p,
      )
  unfolding send_front
  send_front-sent now later msg rest s p left expects sent =
      if_true _ _ (lt→ltb 0 msg.number_of_retries left)
      ∙ ap (λ q. ((write_message stream garbage later msg.message msg.use_crc s p).0, q))
          (if_true _ _ sent ∙ if_false _ _ expects)

  pub wait_answer-late :
      (after : ℕ) (s : State) (p : Protocol)
      → p.answer_time_point < after
      → wait_answer stream garbage client after s p
        ≡ answer_timeout stream garbage client after p.outgoing_messages s p
  unfolding wait_answer
  wait_answer-late after s p h = if_true _ _ (lt→ltb p.answer_time_point after h)

  -- The request at the front is due.
  pub send_outgoing-sent :
      (now later : ℕ) (msg : OutgoingQueueItem) (rest : List OutgoingQueueItem) (s : State)
      (p : Protocol)
      → p.outgoing_messages ≡ msg ∷ rest
      → p.cooldown_time_point ≤ now
      → p.retry_time_point ≤ now
      → 0 < msg.number_of_retries
      → msg.no_answer ≡ false
      → (write_message stream garbage later msg.message msg.use_crc s p).2 ≡ true
      → send_outgoing stream garbage client now later s p ≡ (
        (write_message stream garbage later msg.message msg.use_crc s p).0,
        awaiting now later msg rest s p,
      )
  unfolding send_outgoing
  send_outgoing-sent now later msg rest s p e cool retry left expects sent =
      let due : (leb p.cooldown_time_point now && leb p.retry_time_point now) ≡ true =
        ground (arith, cool, retry) in
      if_true _ _ due
      ∙ (ap (λ q. send_front stream garbage client now later q s p) e
          ∙ send_front-sent now later msg rest s p left expects sent)
