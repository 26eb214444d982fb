-- ===== src/Hon/Kept.antt =====
-- tools/utils/hon_server.cpp: what the set-up and each handler keep of the appliance's state.
use haier_protocol.Prelude.{
  ℕ, ◌+◌, ◌-◌, ◌*◌, ◌/◌, ◌≡◌, refl, sym, not, ◌||◌, List, length, get_or, All, IsByte, arith, ltb,
  ◌==◌, or_else, subst,
}
use haier_protocol.Frame.Kinds.{code}
use haier_protocol.Frame.Kinds
use haier_protocol.Protocol.State.{
  HandlerError, handler_ok, unsupported_message, unexpected_message, unsupported_subcommand,
  wrong_message_structure, runtime_error, unknown_error, invalid_answer,
}
use haier_protocol.Hon.Packet.{
  control_size, subcommand_value, get_user_data, get_big_data, set_group_parameters,
  set_single_parameter,
}
use haier_protocol.Hon.Server.{Server, get_ac_state_ref, has_active_alarms}
use haier_protocol.Hon.Parameters.{
  Handled, single_parameter, answer_parameter, process_single_parameter,
}
use haier_protocol.Hon.Handlers.{
  get_device_version_handler, get_device_id_handler, status_request_handler, alarm_status_handler,
  get_management_information_handler, report_network_status_handler, stop_alarm_handler,
  alarm_status_report_answer_handler, process_subcommand,
}
use haier_protocol.Hon.Simulator.{
  MessageHandler, device_version, device_id, status_request, alarm_status, management_information,
  network_status, stop_alarm, run,
}
use haier_protocol.Hon.Readings.{
  readings, set_group-IsStatus, single_parameter-IsStatus, initial_status-IsStatus,
}
use haier_protocol.Hon.Keeps.{IsServer, with_status, with_reports, network_status-IsServer}

-- What a handler keeps.
abbrev pub Keeps : Handled → Type 0
Keeps h = IsServer h.0

answer_parameter-server :
    (now : ℕ) (after : Server) (e : HandlerError) → (answer_parameter now after e).0 ≡ after
answer_parameter-server now after handler_ok = refl
answer_parameter-server now after unsupported_message = refl
answer_parameter-server now after unexpected_message = refl
answer_parameter-server now after unsupported_subcommand = refl
answer_parameter-server now after wrong_message_structure = refl
answer_parameter-server now after runtime_error = refl
answer_parameter-server now after unknown_error = refl
answer_parameter-server now after invalid_answer = refl

module _ (s : Server) (v : IsServer s) where
  pub set_up-IsServer : (now : ℕ) → IsServer (get_ac_state_ref now s)
  set_up-IsServer now =
      or_else IsServer s.first_run
        (record {
          has_status = initial_status-IsStatus;
          has_alarms = v.has_alarms;
          known = v.known;
          mode = v.mode;
        })
        v

  parameter-Keeps :
      (now parameter value : ℕ) → Keeps (process_single_parameter now parameter value s)
  unfolding process_single_parameter
  parameter-Keeps now parameter value =
      let r = single_parameter parameter value s.ac_status in
      subst IsServer (sym (answer_parameter-server now (record s { ac_status = r.0 }) r.1)) (
        with_status s v r.0 (
          single_parameter-IsStatus (readings s.first_run) parameter value s.ac_status
            v.has_status))

  process_subcommand-Keeps :
      (now subcommand : ℕ) (buffer : List ℕ)
      → All IsByte buffer
      → Keeps (process_subcommand now subcommand buffer s)
  unfolding process_subcommand
  process_subcommand-Keeps now subcommand buffer h =
      or_else Keeps (subcommand == subcommand_value get_user_data)
        (or_else Keeps (not (length buffer == 2)) v v)
        (or_else Keeps (subcommand == subcommand_value get_big_data)
          (or_else Keeps (not (length buffer == 2)) v v)
          (or_else Keeps (subcommand == subcommand_value set_group_parameters)
            (or_else Keeps (not (length buffer - 2 == control_size)) v (
              with_status s v _ (
                set_group-IsStatus (readings s.first_run) control_size 0 buffer s.ac_status
                  (omega arith) h v.has_status)))
            (or_else Keeps (subcommand / 256 * 256 == subcommand_value set_single_parameter)
              (or_else Keeps (not (length buffer == 4)) v (
                parameter-Keeps now (get_or buffer 1 0)
                  (get_or buffer 2 0 * 256 + get_or buffer 3 0)))
              v)))

  pub run-Keeps :
      (h : MessageHandler) (now type : ℕ) (buffer : List ℕ)
      → All IsByte buffer
      → Keeps (run h now type buffer s)
  unfolding run get_device_version_handler get_device_id_handler status_request_handler
      alarm_status_handler get_management_information_handler report_network_status_handler
      stop_alarm_handler
  run-Keeps device_version now type buffer h =
      or_else Keeps (type == code Kinds.get_device_version)
        (or_else Keeps (length buffer == 0 || length buffer == 2) v v) v
  run-Keeps device_id now type buffer h =
      or_else Keeps (type == code Kinds.get_device_id) (or_else Keeps (length buffer == 0) v v) v
  run-Keeps status_request now type buffer h =
      or_else Keeps (type == code Kinds.control)
        (or_else Keeps (ltb (length buffer) 2) v
          (process_subcommand-Keeps now (get_or buffer 0 0 * 256 + get_or buffer 1 0) buffer h))
        v
  run-Keeps alarm_status now type buffer h =
      or_else Keeps (type == code Kinds.get_alarm_status) (or_else Keeps (length buffer == 0) v v) v
  run-Keeps management_information now type buffer h =
      or_else Keeps (type == code Kinds.get_management_information)
        (or_else Keeps (length buffer == 0) v v) v
  run-Keeps network_status now type buffer h =
      or_else Keeps (type == code Kinds.report_network_status)
        (or_else Keeps (length buffer == 4) (network_status-IsServer s v (get_or buffer 1 0)) v) v
  run-Keeps stop_alarm now type buffer h =
      or_else Keeps (type == code Kinds.stop_fault_alarm)
        (or_else Keeps (length buffer == 0) (with_reports s v _ _ _) v) v

  pub answer-Keeps :
      (request_type type : ℕ) (bytes : List ℕ)
      → Keeps (alarm_status_report_answer_handler request_type type bytes s)
  unfolding alarm_status_report_answer_handler
  answer-Keeps request_type type bytes =
      or_else Keeps (request_type == code Kinds.alarm_status)
        (or_else Keeps (type == code Kinds.confirm)
          (or_else Keeps (length bytes == 0)
            (or_else IsServer (not (has_active_alarms s)) (with_reports s v _ _ _)
              (with_reports s v _ _ _))
            v)
          v)
        v
