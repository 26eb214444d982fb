-- ===== src/Protocol/Enqueued.antt =====
-- src/protocol/haier_protocol.cpp: the messages that the calls of a client put into the queue.
use haier_protocol.Prelude.{
  ℕ, ◌≡◌, refl, sym, ap, ◌∙◌, Bool, List, [], ◌∷◌, ◌++◌, append-nil, append_assoc, All, All-append,
  if-both, arith,
}
use haier_protocol.Message.{HaierMessage}
use haier_protocol.Stream.{ProtocolStream}
use haier_protocol.Protocol.State.{
  Protocol, OutgoingQueueItem, Call, set_answer_timeout, set_cooldown_interval, send_message,
  send_message_without_answer, send_answer, send_answer_with, no_answer, set_message_handler,
  set_answer_handler, set_timeout_handler, remove_message_handler, remove_answer_handler,
  remove_timeout_handler, set_default_message_handler, set_default_answer_handler,
  set_default_timeout_handler,
}
use haier_protocol.Protocol.Calls.{write_message, answer, apply, apply_all, request, notice}
use haier_protocol.Protocol.Called.{IsLimited}

-- `send_message` and `send_message_without_answer` each put one message there, and no other call does.
abbrev pub enqueued : Call → List OutgoingQueueItem
enqueued (send_message m use_crc repeats interval) = request m use_crc repeats interval ∷ []
enqueued (send_message_without_answer m use_crc) = notice m use_crc ∷ []
enqueued _ = []

abbrev pub all_enqueued : List Call → List OutgoingQueueItem
all_enqueued [] = []
all_enqueued (c ∷ cs) = enqueued c ++ all_enqueued cs

enqueued-IsLimited : (c : Call) → All IsLimited (enqueued c)
enqueued-IsLimited (send_message m use_crc repeats interval) = (omega arith, tt)
enqueued-IsLimited (send_message_without_answer m use_crc) = (omega arith, tt)
enqueued-IsLimited _ = tt

pub all_enqueued-IsLimited : (cs : List Call) → All IsLimited (all_enqueued cs)
all_enqueued-IsLimited [] = tt
all_enqueued-IsLimited (c ∷ cs) =
    All-append IsLimited (enqueued c) (all_enqueued cs) (enqueued-IsLimited c)
      (all_enqueued-IsLimited cs)

module _ (stream : ProtocolStream) (garbage : ℕ → List ℕ) where
  open stream use {State}

  answer-queue :
      (now : ℕ) (m : HaierMessage) (use_crc : Bool) (s : State) (p : Protocol)
      → (answer stream garbage now m use_crc s p).1.outgoing_messages ≡ p.outgoing_messages
  unfolding answer write_message
  answer-queue now m use_crc s p =
      if-both {A = State × Protocol} (λ r. r.1.outgoing_messages ≡ p.outgoing_messages)
        p.processing_message (λ _. refl) (λ _. refl)

  apply-queue :
      (c : Call) (s : State) (p : Protocol)
      → (apply stream garbage c s p).1.outgoing_messages ≡ p.outgoing_messages ++ enqueued c
  unfolding apply
  apply-queue (set_answer_timeout t) s p = sym (append-nil p.outgoing_messages)
  apply-queue (set_cooldown_interval t) s p = sym (append-nil p.outgoing_messages)
  apply-queue (send_message m use_crc repeats interval) s p = refl
  apply-queue (send_message_without_answer m use_crc) s p = refl
  apply-queue (send_answer now m) s p =
      answer-queue now m p.incoming_message_crc_status s p ∙ sym (append-nil p.outgoing_messages)
  apply-queue (send_answer_with now m use_crc) s p =
      answer-queue now m use_crc s p ∙ sym (append-nil p.outgoing_messages)
  apply-queue no_answer s p =
      if-both (λ (q : Protocol). q.outgoing_messages ≡ p.outgoing_messages ++ [])
        p.processing_message (λ _. sym (append-nil p.outgoing_messages))
        (λ _. sym (append-nil p.outgoing_messages))
  apply-queue (set_message_handler k h) s p = sym (append-nil p.outgoing_messages)
  apply-queue (set_answer_handler k h) s p = sym (append-nil p.outgoing_messages)
  apply-queue (set_timeout_handler k h) s p = sym (append-nil p.outgoing_messages)
  apply-queue (remove_message_handler k) s p = sym (append-nil p.outgoing_messages)
  apply-queue (remove_answer_handler k) s p = sym (append-nil p.outgoing_messages)
  apply-queue (remove_timeout_handler k) s p = sym (append-nil p.outgoing_messages)
  apply-queue (set_default_message_handler h) s p = sym (append-nil p.outgoing_messages)
  apply-queue (set_default_answer_handler h) s p = sym (append-nil p.outgoing_messages)
  apply-queue (set_default_timeout_handler h) s p = sym (append-nil p.outgoing_messages)

  -- The calls of a client add to the end of the queue the messages that they send, in order.
  pub apply_all-queue :
      (cs : List Call) (s : State) (p : Protocol)
      → (apply_all stream garbage cs s p).1.outgoing_messages
        ≡ p.outgoing_messages ++ all_enqueued cs
  unfolding apply_all
  apply_all-queue [] s p = sym (append-nil p.outgoing_messages)
  apply_all-queue (c ∷ cs) s p =
      let q = apply stream garbage c s p in
      apply_all-queue cs q.0 q.1
      ∙ ap (λ l. l ++ all_enqueued cs) (apply-queue c s p)
      ∙ append_assoc p.outgoing_messages (enqueued c) (all_enqueued cs)
