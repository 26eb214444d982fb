-- ===== src/Hon/Answers.antt =====
-- tools/utils/hon_server.cpp: each message handler answers once, and a refused message changes
-- nothing.
use haier_protocol.Prelude.{
  get_or, ℕ, ◌≡◌, ◌≢◌, refl, sym, ◌∙◌, subst, ◌⊎◌, inl, inr, arith, Bool, true, not, ◌&&◌, List, [],
  ◌∷◌, length, get_or, ◌==◌, if◌then◌else◌, if-both,
}
use haier_protocol.Frame.Kinds.{
  code, invalid, get_device_version_response, get_device_id_response, get_alarm_status_response,
  get_management_information_response,
}
use haier_protocol.Frame.Kinds
use haier_protocol.Message.{HaierMessage}
use haier_protocol.Message
use haier_protocol.Protocol.State.{
  send_answer, send_answer_with, HandlerError, handler_ok, unsupported_message,
  unsupported_subcommand, wrong_message_structure,
}
use haier_protocol.Hon.Packet.{alarm_buf_size}
use haier_protocol.Hon.Server.{Server, confirm_msg}
use haier_protocol.Hon.Parameters.{Handled, reject, status_message}
use haier_protocol.Hon.Handlers.{
  get_device_version_handler, get_device_id_handler, alarm_status_handler,
  get_management_information_handler, network_status, report_network_status_handler,
  stop_alarm_handler, answer_status, device_version_info_buf, device_id_buf,
  management_information_buf,
}

-- One answer that is not INVALID, and success.
pub record Accepted (now : ℕ) (h : Handled) : Type 0 where
  pub message : HaierMessage
  pub calls : (h.1 ≡ send_answer now message ∷ []) ⊎ (h.1 ≡ send_answer_with now message true ∷ [])
  pub kind : message.frame_type ≢ code invalid
  pub result : h.2 ≡ handler_ok

-- The answer INVALID, an error, and the appliance as it was.
pub record Refused (now : ℕ) (server : Server) (h : Handled) : Type 0 where
  pub error : HandlerError
  pub is_error : error ≢ handler_ok
  pub outcome : h ≡ reject now server error

abbrev pub Answered : ℕ → Server → Handled → Type 0
Answered now server h = Accepted now h ⊎ Refused now server h

pub structure_error : wrong_message_structure ≢ handler_ok
structure_error e = cc

pub subcommand_error : unsupported_subcommand ≢ handler_ok
subcommand_error e = cc

pub message_error : unsupported_message ≢ handler_ok
message_error e = cc

make-frame_type :
    (kind subcommand : ℕ) (bytes : List ℕ) (size : ℕ)
    → (Message.make kind subcommand true bytes size).frame_type ≡ kind
unfolding Message.make
make-frame_type kind subcommand bytes size =
    if-both (λ (m : HaierMessage). m.frame_type ≡ kind) (true && not (size == 0)) (λ e. refl)
      (λ e. refl)

module _ (now : ℕ) (server : Server) where
  pub reject-Answered :
      (e : HandlerError) → e ≢ handler_ok → Answered now server (reject now server e)
  reject-Answered e h = inr (record { error = e; is_error = h; outcome = refl })

  -- An answer that the constructor builds.
  answer_with-Answered :
      (after : Server) (message : HaierMessage)
      → message.frame_type ≢ code invalid
      → Answered now server (after, send_answer_with now message true ∷ [], handler_ok)
  answer_with-Answered after message h =
      inl (record { message = message; calls = inr refl; kind = h; result = refl })

  answer-Answered :
      (after : Server) (message : HaierMessage)
      → message.frame_type ≢ code invalid
      → Answered now server (after, send_answer now message ∷ [], handler_ok)
  answer-Answered after message h =
      inl (record { message = message; calls = inl refl; kind = h; result = refl })

  valid :
      (kind subcommand : ℕ) (bytes : List ℕ) (size : ℕ)
      → kind ≢ code invalid
      → (Message.make kind subcommand true bytes size).frame_type ≢ code invalid
  valid kind subcommand bytes size h e = h (sym (make-frame_type kind subcommand bytes size) ∙ e)

  pub refused :
      (after : Server) (e : HandlerError)
      → e ≢ handler_ok
      → after ≡ server
      → Answered now server (reject now after e)
  refused after e ne same =
      subst (λ s. Answered now server (reject now s e)) (sym same) (reject-Answered e ne)

  -- A handler that looks at the type, then at the size.
  guarded :
      (b c : Bool) (h : Handled) (e : HandlerError)
      → Answered now server h
      → e ≢ handler_ok
      → Answered now server (
          if b
          then (if c then h else reject now server e)
          else reject now server unsupported_message)
  guarded b c h e k ne =
      if-both (Answered now server) b
        (λ _. if-both (Answered now server) c (λ _. k) (λ _. reject-Answered e ne))
        (λ _. reject-Answered unsupported_message message_error)

  pub get_device_version-Answered :
      (type : ℕ) (buffer : List ℕ)
      → Answered now server (get_device_version_handler now type buffer server)
  unfolding get_device_version_handler
  get_device_version-Answered type buffer =
      guarded _ _ _ _
        (answer_with-Answered server _ (
          valid (code get_device_version_response) 0 device_version_info_buf
            (length device_version_info_buf) (omega arith)))
        structure_error

  pub get_device_id-Answered :
      (type : ℕ) (buffer : List ℕ)
      → Answered now server (get_device_id_handler now type buffer server)
  unfolding get_device_id_handler
  get_device_id-Answered type buffer =
      guarded _ _ _ _
        (answer_with-Answered server _ (
          valid (code get_device_id_response) 0 device_id_buf (length device_id_buf) (omega arith)))
        subcommand_error

  pub alarm_status-Answered :
      (type : ℕ) (buffer : List ℕ)
      → Answered now server (alarm_status_handler now type buffer server)
  unfolding alarm_status_handler
  alarm_status-Answered type buffer =
      guarded _ _ _ _
        (answer-Answered server _ (
          valid (code get_alarm_status_response) 0x0f5a server.alarm_status_buf alarm_buf_size
            (omega arith)))
        structure_error

  pub get_management_information-Answered :
      (type : ℕ) (buffer : List ℕ)
      → Answered now server (get_management_information_handler now type buffer server)
  unfolding get_management_information_handler
  get_management_information-Answered type buffer =
      guarded _ _ _ _
        (answer-Answered server _ (
          valid (code get_management_information_response) 0 management_information_buf
            (length management_information_buf) (omega arith)))
        subcommand_error

  pub report_network_status-Answered :
      (type : ℕ) (buffer : List ℕ)
      → Answered now server (report_network_status_handler now type buffer server)
  unfolding report_network_status_handler
  report_network_status-Answered type buffer =
      guarded (type == code Kinds.report_network_status) (length buffer == 4) _ _
        (answer-Answered (network_status (get_or buffer 1 0) server) confirm_msg (omega arith))
        structure_error

  pub stop_alarm-Answered :
      (type : ℕ) (buffer : List ℕ) → Answered now server (stop_alarm_handler now type buffer server)
  unfolding stop_alarm_handler
  stop_alarm-Answered type buffer =
      guarded (type == code Kinds.stop_fault_alarm) (length buffer == 0) _ _
        (answer-Answered (record server { alarm_stopped = true }) confirm_msg (omega arith))
        structure_error

  pub status-Answered :
      (after : Server) (subcommand size : ℕ)
      → Answered now server (answer_status now subcommand size after)
  unfolding status_message
  status-Answered after subcommand size =
      answer-Answered after _
        (valid (code Kinds.status) subcommand after.ac_status size (omega arith))
