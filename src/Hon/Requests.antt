-- ===== src/Hon/Requests.antt =====
-- tools/utils/hon_server.cpp: `status_request_handler` answers once, and a refused request changes
-- nothing.
use haier_protocol.Prelude.{
  false, ◌/◌, ◌-◌, ◌*◌, ◌+◌, get_or, Option, none, some, or_else, ℕ, ◌+◌, ◌*◌, ◌≡◌, ◌≢◌, refl, sym,
  ap, subst, Bool, true, not, List, length, get_or, leb, ltb, ◌==◌, if◌then◌else◌, if-both,
}
use haier_protocol.Bits.{BitField}
use haier_protocol.Frame.Kinds.{
  code, invalid, get_device_version_response, get_device_id_response, get_alarm_status_response,
  get_management_information_response,
}
use haier_protocol.Frame.Kinds
use haier_protocol.Protocol.State.{
  HandlerError, handler_ok, unsupported_message, unsupported_subcommand, wrong_message_structure,
  unexpected_message, runtime_error, unknown_error, invalid_answer,
}
use haier_protocol.Hon.Packet.{
  control_size, subcommand_value, get_user_data, get_big_data, set_group_parameters,
  set_single_parameter, Control, user_data_size, full_size, control,
}
use haier_protocol.Hon.Server.{Server}
use haier_protocol.Hon.Parameters.{
  Handled, reject, store_flag, single_parameter, answer_parameter, process_single_parameter,
}
use haier_protocol.Hon.Members.{member, store_member, single_parameter-member}
use haier_protocol.Hon.Handlers.{set_group, process_subcommand, status_request_handler}
use haier_protocol.Hon.Answers.{
  Answered, reject-Answered, refused, status-Answered, structure_error, subcommand_error,
  message_error,
}

module _ (now : ℕ) (server : Server) where
  parameter-Answered :
      (after : Server) (e : HandlerError)
      → (e ≢ handler_ok → after ≡ server)
      → Answered now server (answer_parameter now after e)
  parameter-Answered after handler_ok h = status-Answered now server after 0x6d01 user_data_size
  parameter-Answered after unsupported_message h =
      refused now server after unsupported_message (λ q. cc) (h (λ q. cc))
  parameter-Answered after unexpected_message h =
      refused now server after unexpected_message (λ q. cc) (h (λ q. cc))
  parameter-Answered after unsupported_subcommand h =
      refused now server after unsupported_subcommand (λ q. cc) (h (λ q. cc))
  parameter-Answered after wrong_message_structure h =
      refused now server after wrong_message_structure (λ q. cc) (h (λ q. cc))
  parameter-Answered after runtime_error h =
      refused now server after runtime_error (λ q. cc) (h (λ q. cc))
  parameter-Answered after unknown_error h =
      refused now server after unknown_error (λ q. cc) (h (λ q. cc))
  parameter-Answered after invalid_answer h =
      refused now server after invalid_answer (λ q. cc) (h (λ q. cc))

-- An error of `single_parameter` leaves the status as it was.
abbrev Kept : List ℕ → List ℕ × HandlerError → Type 0
Kept before r = r.1 ≢ handler_ok → r.0 ≡ before

store_flag-Kept :
    (f : BitField) (value : ℕ) (before : List ℕ) → Kept before (store_flag f value before)
store_flag-Kept f value before =
    if-both (Kept before) (leb value 1) (λ _ h. absurd (h refl)) (λ _ _. refl)

store_member-Kept :
    (m : Option (Control × Bool)) (value : ℕ) (before : List ℕ)
    → Kept before (store_member m value before)
store_member-Kept none value before = λ h. refl
store_member-Kept (some (c, true)) value before = store_flag-Kept (control c) value before
store_member-Kept (some (c, false)) value before = λ h. absurd (h refl)

single_parameter-Kept :
    (parameter value : ℕ) (before : List ℕ) → Kept before (single_parameter parameter value before)
single_parameter-Kept parameter value before =
    subst (Kept before) (sym (single_parameter-member parameter value before))
      (store_member-Kept (member parameter) value before)

module _ (now : ℕ) (server : Server) where
  process_single_parameter-Answered :
      (parameter value : ℕ)
      → Answered now server (process_single_parameter now parameter value server)
  unfolding process_single_parameter
  process_single_parameter-Answered parameter value =
      let r = single_parameter parameter value server.ac_status in
      parameter-Answered now server (record server { ac_status = r.0 }) r.1
        (λ h.
          ap (λ l. record server { ac_status = l })
            (single_parameter-Kept parameter value server.ac_status h))

  sized :
      (b : Bool) (h : Handled)
      → Answered now server h
      → Answered now server (if not b then reject now server wrong_message_structure else h)
  sized b h k =
      if-both (Answered now server) (not b)
        (λ _. reject-Answered now server wrong_message_structure structure_error) (λ _. k)

  process_subcommand-Answered :
      (subcommand : ℕ) (buffer : List ℕ)
      → Answered now server (process_subcommand now subcommand buffer server)
  unfolding process_subcommand
  process_subcommand-Answered subcommand buffer =
      or_else (Answered now server) (subcommand == subcommand_value get_user_data)
        (sized (length buffer == 2) _ (status-Answered now server server 0x6d01 user_data_size))
        (or_else (Answered now server) (subcommand == subcommand_value get_big_data)
          (sized (length buffer == 2) _ (status-Answered now server server 0x7d01 full_size))
          (or_else (Answered now server) (subcommand == subcommand_value set_group_parameters)
            (sized (length buffer - 2 == control_size) _
              (status-Answered now server grouped 0x6d5f user_data_size))
            (or_else (Answered now server)
              (subcommand / 256 * 256 == subcommand_value set_single_parameter)
              (sized (length buffer == 4) _ (
                process_single_parameter-Answered (get_or buffer 1 0)
                  (get_or buffer 2 0 * 256 + get_or buffer 3 0)))
              (reject-Answered now server unsupported_subcommand subcommand_error))))
    where
      grouped : Server
      grouped = record server { ac_status = set_group control_size 0 buffer server.ac_status }

  pub status_request-Answered :
      (type : ℕ) (buffer : List ℕ)
      → Answered now server (status_request_handler now type buffer server)
  unfolding status_request_handler
  status_request-Answered type buffer =
      if-both (Answered now server) (type == code Kinds.control)
        (λ _.
          if-both (Answered now server) (ltb (length buffer) 2)
            (λ _. reject-Answered now server wrong_message_structure structure_error)
            (λ _. process_subcommand-Answered (get_or buffer 0 0 * 256 + get_or buffer 1 0) buffer))
        (λ _. reject-Answered now server unsupported_message message_error)
