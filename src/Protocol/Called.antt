-- ===== src/Protocol/Called.antt =====
-- src/protocol/haier_protocol.cpp: what the calls of a client change, and what they leave.
use haier_protocol.Prelude.{
  ℕ, ◌+◌, ◌≤◌, ◌≡◌, refl, sym, ap, ◌∙◌, List, [], ◌∷◌, ◌++◌, append-nil, append_assoc, arith, Bool,
  All, All-append, if-both,
}
use haier_protocol.Message.{HaierMessage}
use haier_protocol.Stream.{ProtocolStream}
use haier_protocol.Protocol.State.{
  Protocol, OutgoingQueueItem, Call, set_answer_timeout, set_cooldown_interval, send_message,
  send_message_without_answer, send_answer, send_answer_with, no_answer, set_message_handler,
  set_answer_handler, set_timeout_handler, remove_message_handler, remove_answer_handler,
  remove_timeout_handler, set_default_message_handler, set_default_answer_handler,
  set_default_timeout_handler, max_packet_retries,
}
use haier_protocol.Protocol.Calls.{write_message, answer, apply, apply_all, enqueue, request}

-- A message that is sent `max_packet_retries` times more at most.
abbrev pub IsLimited : OutgoingQueueItem → Type 0
IsLimited item = item.number_of_retries ≤ max_packet_retries + 1

-- What calls of the client change at most: messages are added to the end of the queue.
pub record Called (p q : Protocol) : Type 0 where
  pub added : List OutgoingQueueItem
  pub queue : q.outgoing_messages ≡ p.outgoing_messages ++ added
  pub limited : All IsLimited added
  pub same_state : q.state ≡ p.state
  pub same_transport : q.transport ≡ p.transport
  pub same_processing : q.processing_message ≡ p.processing_message

Called-refl :
    (p q : Protocol)
    → q.outgoing_messages ≡ p.outgoing_messages
    → q.state ≡ p.state
    → q.transport ≡ p.transport
    → q.processing_message ≡ p.processing_message
    → Called p q
Called-refl p q e1 e2 e3 e4 = record {
  added = [];
  queue = e1 ∙ sym (append-nil p.outgoing_messages);
  limited = tt;
  same_state = e2;
  same_transport = e3;
  same_processing = e4;
}

Called-trans : {p q r : Protocol} → Called p q → Called q r → Called p r
Called-trans {p} {q} {r} a b = record {
  added = a.added ++ b.added;
  queue =
      b.queue ∙ (ap (λ l. l ++ b.added) a.queue ∙ append_assoc p.outgoing_messages a.added b.added);
  limited = All-append IsLimited a.added b.added a.limited b.limited;
  same_state = b.same_state ∙ a.same_state;
  same_transport = b.same_transport ∙ a.same_transport;
  same_processing = b.same_processing ∙ a.same_processing;
}

module _ (stream : ProtocolStream) (garbage : ℕ → List ℕ) where
  open stream use {State}

  answer-Called :
      (now : ℕ) (m : HaierMessage) (use_crc : Bool) (s : State) (p : Protocol)
      → Called p (answer stream garbage now m use_crc s p).1
  unfolding answer write_message
  answer-Called now m use_crc s p =
      if-both {A = State × Protocol} (λ r. Called p r.1) p.processing_message
        (λ _. Called-refl p _ refl refl refl refl) (λ _. Called-refl p p refl refl refl refl)

  enqueue-Called :
      (item : OutgoingQueueItem) (p : Protocol) → IsLimited item → Called p (enqueue item p)
  enqueue-Called item p h = record {
    added = item ∷ [];
    queue = refl;
    limited = (h, tt);
    same_state = refl;
    same_transport = refl;
    same_processing = refl;
  }

  request-IsLimited :
      (m : HaierMessage) (use_crc : Bool) (repeats interval : ℕ)
      → IsLimited (request m use_crc repeats interval)
  request-IsLimited m use_crc repeats interval = omega arith

  -- Every call of the client only adds messages to the queue, of what the invariant reads.
  pub apply-Called : (c : Call) (s : State) (p : Protocol) → Called p (apply stream garbage c s p).1
  unfolding apply
  apply-Called (set_answer_timeout t) s p = Called-refl p _ refl refl refl refl
  apply-Called (set_cooldown_interval t) s p = Called-refl p _ refl refl refl refl
  apply-Called (send_message m use_crc repeats interval) s p =
      enqueue-Called _ p (request-IsLimited m use_crc repeats interval)
  apply-Called (send_message_without_answer m use_crc) s p = enqueue-Called _ p (omega arith)
  apply-Called (send_answer now m) s p = answer-Called now m p.incoming_message_crc_status s p
  apply-Called (send_answer_with now m use_crc) s p = answer-Called now m use_crc s p
  apply-Called no_answer s p =
      if-both (Called p) p.processing_message (λ _. Called-refl p _ refl refl refl refl)
        (λ _. Called-refl p p refl refl refl refl)
  apply-Called (set_message_handler k h) s p = Called-refl p _ refl refl refl refl
  apply-Called (set_answer_handler k h) s p = Called-refl p _ refl refl refl refl
  apply-Called (set_timeout_handler k h) s p = Called-refl p _ refl refl refl refl
  apply-Called (remove_message_handler k) s p = Called-refl p _ refl refl refl refl
  apply-Called (remove_answer_handler k) s p = Called-refl p _ refl refl refl refl
  apply-Called (remove_timeout_handler k) s p = Called-refl p _ refl refl refl refl
  apply-Called (set_default_message_handler h) s p = Called-refl p _ refl refl refl refl
  apply-Called (set_default_answer_handler h) s p = Called-refl p _ refl refl refl refl
  apply-Called (set_default_timeout_handler h) s p = Called-refl p _ refl refl refl refl

  pub apply_all-Called :
      (cs : List Call) (s : State) (p : Protocol) → Called p (apply_all stream garbage cs s p).1
  unfolding apply_all
  apply_all-Called [] s p = Called-refl p p refl refl refl refl
  apply_all-Called (c ∷ cs) s p =
      Called-trans (apply-Called c s p)
        (apply_all-Called cs (apply stream garbage c s p).0 (apply stream garbage c s p).1)
