-- ===== src/Protocol/Silent.antt =====
-- haier_protocol.cpp: the calls of a client that write nothing.
use haier_protocol.Prelude.{ℕ, ◌≡◌, refl, ap, ◌∙◌, Bool, false, List, [], ◌∷◌, if_false}
use haier_protocol.Message.{HaierMessage}
use haier_protocol.Stream.{ProtocolStream}
use haier_protocol.Protocol.State.{
  Protocol, Call, set_answer_timeout, set_cooldown_interval, send_message,
  send_message_without_answer, send_answer, send_answer_with, no_answer, set_message_handler,
  set_answer_handler, set_timeout_handler, remove_message_handler, remove_answer_handler,
  remove_timeout_handler, set_default_message_handler, set_default_answer_handler,
  set_default_timeout_handler,
}
use haier_protocol.Protocol.Calls.{answer, apply, apply_all}
use haier_protocol.Protocol.Called.{apply-Called}

module _ (stream : ProtocolStream) (garbage : ℕ → List ℕ) where
  open stream use {State}

  answer-silent :
      (now : ℕ) (m : HaierMessage) (use_crc : Bool) (s : State) (p : Protocol)
      → p.processing_message ≡ false
      → (answer stream garbage now m use_crc s p).0 ≡ s
  unfolding answer
  answer-silent now m use_crc s p h = ap (λ (r : State × Protocol). r.0) (if_false _ _ h)

  apply-silent :
      (c : Call) (s : State) (p : Protocol)
      → p.processing_message ≡ false
      → (apply stream garbage c s p).0 ≡ s
  unfolding apply
  apply-silent (set_answer_timeout t) s p h = refl
  apply-silent (set_cooldown_interval t) s p h = refl
  apply-silent (send_message m use_crc repeats interval) s p h = refl
  apply-silent (send_message_without_answer m use_crc) s p h = refl
  apply-silent (send_answer now m) s p h = answer-silent now m p.incoming_message_crc_status s p h
  apply-silent (send_answer_with now m use_crc) s p h = answer-silent now m use_crc s p h
  apply-silent no_answer s p h = refl
  apply-silent (set_message_handler k g) s p h = refl
  apply-silent (set_answer_handler k g) s p h = refl
  apply-silent (set_timeout_handler k g) s p h = refl
  apply-silent (remove_message_handler k) s p h = refl
  apply-silent (remove_answer_handler k) s p h = refl
  apply-silent (remove_timeout_handler k) s p h = refl
  apply-silent (set_default_message_handler g) s p h = refl
  apply-silent (set_default_answer_handler g) s p h = refl
  apply-silent (set_default_timeout_handler g) s p h = refl

  -- Outside a message handler the client's calls write nothing.
  pub apply_all-silent :
      (cs : List Call) (s : State) (p : Protocol)
      → p.processing_message ≡ false
      → (apply_all stream garbage cs s p).0 ≡ s
  unfolding apply_all
  apply_all-silent [] s p h = refl
  apply_all-silent (c ∷ cs) s p h =
      let d = apply-Called stream garbage c s p in
      apply_all-silent cs (apply stream garbage c s p).0 (apply stream garbage c s p).1
        (d.same_processing ∙ h)
      ∙ apply-silent c s p h
