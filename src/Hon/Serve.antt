-- ===== src/Hon/Serve.antt =====
-- The appliance of tools/utils/hon_server.cpp as the client of src/protocol/haier_protocol.cpp: what
-- a request that arrives makes of the stream.
use haier_protocol.Prelude.{
  ℕ, ◌≡◌, ◌≢◌, refl, sym, ap, ◌∙◌, ◌⊎◌, inl, inr, ◌↔◌, Bool, true, false, List, [], ◌∷◌, some,
  get_or,
}
use haier_protocol.Message.{HaierMessage}
use haier_protocol.Frame.Kinds.{code, invalid}
use haier_protocol.Frame.Types.{HaierFrame}
use haier_protocol.Stream.{ProtocolStream}
use haier_protocol.Protocol.State.{
  Protocol, Call, send_answer, send_answer_with, by_client, handler_ok, find,
}
use haier_protocol.Protocol.Calls.{write_message, apply_all}
use haier_protocol.Protocol.Loop.{found_or, run_message_handler, handle_message}
use haier_protocol.Hon.Server.{Server, invalid_msg}
use haier_protocol.Hon.Parameters.{Handled}
use haier_protocol.Hon.Answers.{
  Answered, get_device_version-Answered, get_device_id-Answered, alarm_status-Answered,
  get_management_information-Answered, report_network_status-Answered, stop_alarm-Answered,
}
use haier_protocol.Hon.Requests.{status_request-Answered}
use haier_protocol.Hon.Simulator.{
  MessageHandler, device_version, device_id, status_request, alarm_status, management_information,
  network_status, stop_alarm, run, number, mhandlers, serve,
}

-- Each handler that the simulator registers, whatever the message: it makes one call on the protocol
-- handler, an answer. Either the answer is not INVALID and the result is HANDLER_OK, or the answer
-- is INVALID, the result is an error, and the appliance is as it was.
pub run-Answered :
    (h : MessageHandler) (now type : ℕ) (buffer : List ℕ) (server : Server)
    → Answered now server (run h now type buffer server)
unfolding run
run-Answered device_version now type buffer server =
    get_device_version-Answered now server type buffer
run-Answered device_id now type buffer server = get_device_id-Answered now server type buffer
run-Answered status_request now type buffer server = status_request-Answered now server type buffer
run-Answered alarm_status now type buffer server = alarm_status-Answered now server type buffer
run-Answered management_information now type buffer server =
    get_management_information-Answered now server type buffer
run-Answered network_status now type buffer server =
    report_network_status-Answered now server type buffer
run-Answered stop_alarm now type buffer server = stop_alarm-Answered now server type buffer

mhandlers-number : (h : MessageHandler) → get_or mhandlers (number h) stop_alarm ≡ h
mhandlers-number device_version = refl
mhandlers-number device_id = refl
mhandlers-number status_request = refl
mhandlers-number alarm_status = refl
mhandlers-number management_information = refl
mhandlers-number network_status = refl
mhandlers-number stop_alarm = refl

module _ (stream : ProtocolStream) (garbage : ℕ → List ℕ) where
  open stream use {State}

  -- the protocol handler while a message's handler runs
  abbrev pub processing : HaierFrame → Protocol → Protocol
  processing frame p = record p {
    incoming_message_crc_status = frame.use_crc;
    processing_message = true;
    answer_sent = false;
  }

  -- One answer written at the time `now`, and the message done.
  abbrev pub answered : ℕ → HaierMessage → Bool → HaierFrame → State → Protocol → State × Protocol
  answered now message use_crc frame s p =
      let (s, p, sent) = write_message stream garbage now message use_crc s (processing frame p) in
      (s, record p { answer_sent = sent; processing_message = false })

  -- The calls of a handler, made while its message is processed.
  abbrev pub done_with : List Call → HaierFrame → State → Protocol → State × Protocol
  done_with calls frame s p =
      let (s, p) = apply_all stream garbage calls s (processing frame p) in
      (s, record p { processing_message = false })

  -- What `handle_message` does where the handler of a type is one of the simulator's.
  handle_message-run :
      (h : MessageHandler) (now : ℕ) (server : Server) (frame : HaierFrame) (s : State)
      (p : Protocol)
      → find frame.frame_type p.message_handlers_map ≡ some (by_client (number h))
      → handle_message stream garbage (serve now server) frame s p
        ≡ done_with (run h now frame.frame_type frame.bytes server).1 frame s p
  unfolding handle_message run_message_handler serve
  handle_message-run h now server frame s p e =
      ap
        (λ o.
          done_with
            (run_message_handler (serve now server) (found_or o p.default_message_handler)
              frame.frame_type frame.bytes).0
            frame s p)
        e
      ∙ ap (λ g. done_with (run g now frame.frame_type frame.bytes server).1 frame s p)
          (mhandlers-number h)

  done_with-answer :
      (now : ℕ) (calls : List Call) (message : HaierMessage) (frame : HaierFrame) (s : State)
      (p : Protocol)
      → ((calls ≡ send_answer now message ∷ [])
          → done_with calls frame s p ≡ answered now message frame.use_crc frame s p)
        × ((calls ≡ send_answer_with now message true ∷ [])
            → done_with calls frame s p ≡ answered now message true frame s p)
  unfolding apply_all
  done_with-answer now calls message frame s p =
      (λ e. ap (λ c. done_with c frame s p) e, λ e. ap (λ c. done_with c frame s p) e)

  -- The request was answered with the one message that the handler's call carries, with a CRC as that
  -- call says or else as the request had one, and it is INVALID exactly where the request was refused.
  pub record Reply (now : ℕ) (h : Handled) (frame : HaierFrame) (s : State) (p : Protocol)
      (r : State × Protocol) : Type 0 where
    pub message : HaierMessage
    pub use_crc : Bool
    pub call :
        ((h.1 ≡ send_answer now message ∷ []) × (use_crc ≡ frame.use_crc))
        ⊎ ((h.1 ≡ send_answer_with now message true ∷ []) × (use_crc ≡ true))
    pub written : r ≡ answered now message use_crc frame s p
    pub refusal : (message.frame_type ≡ code invalid) ↔ (h.2 ≢ handler_ok)

  -- An incoming frame whose type the simulator has registered the handler `h` for, in any state of the
  -- appliance, the stream and the protocol handler: `handle_message` writes exactly the message of the
  -- one call that `h` makes to the stream by `write_message_` and does nothing else to it, and that
  -- message is INVALID exactly where the result of `h` is not HANDLER_OK.
  pub handle_message-Reply :
      (h : MessageHandler) (now : ℕ) (server : Server) (frame : HaierFrame) (s : State)
      (p : Protocol)
      → find frame.frame_type p.message_handlers_map ≡ some (by_client (number h))
      → Reply now
          (run h now frame.frame_type frame.bytes server)
          frame
          s
          p
          (handle_message stream garbage (serve now server) frame s p)
  handle_message-Reply h now server frame s p e =
      elim (run-Answered h now frame.frame_type frame.bytes server) [
        | inl a ↦ elim a.calls [
          | inl c ↦ record {
            message = a.message;
            use_crc = frame.use_crc;
            call = inl (c, refl);
            written = runs ∙ (done_with-answer now _ a.message frame s p).0 c;
            refusal = (λ q. absurd (a.kind q), λ ne. absurd (ne a.result));
          }
          | inr c ↦ record {
            message = a.message;
            use_crc = true;
            call = inr (c, refl);
            written = runs ∙ (done_with-answer now _ a.message frame s p).1 c;
            refusal = (λ q. absurd (a.kind q), λ ne. absurd (ne a.result));
          }
        ]
        | inr f ↦ record {
          message = invalid_msg;
          use_crc = frame.use_crc;
          call = inl (ap (λ (x : Handled). x.1) f.outcome, refl);
          written =
              runs
              ∙ (done_with-answer now _ invalid_msg frame s p).0
                  (ap (λ (x : Handled). x.1) f.outcome);
          refusal = (λ _ q. f.is_error (sym (ap (λ (x : Handled). x.2) f.outcome) ∙ q), λ _. refl);
        }
      ]
    where
      runs :
          handle_message stream garbage (serve now server) frame s p
          ≡ done_with (run h now frame.frame_type frame.bytes server).1 frame s p
      runs = handle_message-run h now server frame s p e
