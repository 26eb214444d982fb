-- ===== src/SmartAir2/Answers.antt =====
-- tools/utils/smartair2_server.cpp: its handlers answer once, and a refused message changes nothing.
use haier_protocol.Prelude.{
  ℕ, ◌-◌, ◌≡◌, ◌≢◌, refl, ◌⊎◌, inl, inr, not, ◌&&◌, List, [], ◌∷◌, length, get_or, arith, ltb, ◌==◌,
  or_else,
}
use haier_protocol.Bits.{assign}
use haier_protocol.Frame.Kinds.{code, invalid, report_network_status}
use haier_protocol.Frame.Kinds
use haier_protocol.Message.{HaierMessage}
use haier_protocol.Message
use haier_protocol.Protocol.State.{
  send_answer, HandlerError, handler_ok, unsupported_message, unsupported_subcommand,
  wrong_message_structure,
}
use haier_protocol.SmartAir2.Packet.{control, control_size}
use haier_protocol.SmartAir2.Packet
use haier_protocol.SmartAir2.Server.{
  Handled, confirm_msg, reject, report_network_status_handler, status_message, answer_status,
  set_group, process_subcommand, status_request_handler,
}
use haier_protocol.SmartAir2.Status.{status_bytes}

-- One answer that is not INVALID and success, or the answer INVALID, an error and the status as before.
abbrev pub Answered : ℕ → List ℕ → Handled → Type 0
Answered now before r =
    ((m : HaierMessage) × (r.1 ≡ send_answer now m ∷ [])
      × (m.frame_type ≢ code invalid)
      × (r.2 ≡ handler_ok))
    ⊎ ((e : HandlerError) × (e ≢ handler_ok) × (r ≡ reject now before e))

module _ (now : ℕ) (before : List ℕ) where
  rejected : (e : HandlerError) → e ≢ handler_ok → Answered now before (reject now before e)
  rejected e ne = inr (e, ne, refl)

  sent :
      (subcommand : ℕ) (after : List ℕ) → Answered now before (answer_status now subcommand after)
  unfolding status_message Message.make
  sent subcommand after = inl (status_bytes subcommand after, refl, omega arith, refl)

  process_subcommand-Answered :
      (buffer : List ℕ) → Answered now before (process_subcommand now buffer before)
  unfolding process_subcommand
  process_subcommand-Answered buffer =
      let first = get_or buffer 0 0 in
      let second = get_or buffer 1 0 in
      let size = length buffer in
      or_else (Answered now before) (size == 2 && first == 0x4d && second == 0x01)
        (sent 0x6d01 before)
        (or_else (Answered now before) (size == 2 && first == 0x4d && second == 0x02)
          (sent 0x6d02 (assign (control Packet.ac_power) 1 before))
          (or_else (Answered now before) (size == 2 && first == 0x4d && second == 0x03)
            (sent 0x6d03 (assign (control Packet.ac_power) 0 before))
            (or_else (Answered now before) (ltb 2 size && first == 0x4d && second == 0x5f)
              (or_else (Answered now before) (not (size - 2 == control_size))
                (rejected wrong_message_structure (λ q. cc))
                (sent 0x6d5f (set_group control_size 0 buffer before)))
              (rejected unsupported_subcommand (λ q. cc)))))

  -- `status_request_handler` and `report_network_status_handler`, whatever the message: one call on the
  -- protocol handler, an answer. Either the answer is not INVALID and the result is HANDLER_OK, or the
  -- answer is INVALID, the result is an error and the status is as before.
  pub handlers-Answered :
      (type : ℕ) (buffer : List ℕ)
      → Answered now before (status_request_handler now type buffer before)
        × Answered now before (report_network_status_handler now type buffer before)
  unfolding status_request_handler report_network_status_handler
  handlers-Answered type buffer = (
    or_else (Answered now before) (type == code Kinds.control) (process_subcommand-Answered buffer)
        (rejected unsupported_message (λ q. cc)),
    or_else (Answered now before) (type == code report_network_status)
        (or_else (Answered now before) (length buffer == 4)
          (inl (confirm_msg, refl, omega arith, refl)) (rejected wrong_message_structure (λ q. cc)))
        (rejected unsupported_message (λ q. cc)),
  )
