-- ===== src/Hon/Handlers.antt =====
-- tools/utils/hon_server.cpp: the handlers of the appliance. Each takes the time of its call, the
-- message's type and its bytes, and the state.
use haier_protocol.Prelude.{
  ℕ, zero, suc, ◌+◌, ◌-◌, ◌*◌, ◌/◌, true, not, ◌&&◌, ◌||◌, List, [], ◌∷◌, length, get_or, set, ltb,
  ◌==◌, if◌then◌else◌,
}
use haier_protocol.Bits.{load, assign}
use haier_protocol.Frame.Kinds.{
  code, get_device_version, get_device_version_response, get_device_id, get_device_id_response,
  control, get_alarm_status, get_alarm_status_response, get_management_information,
  get_management_information_response, report_network_status, alarm_status, confirm,
  stop_fault_alarm,
}
use haier_protocol.Message.{HaierMessage}
use haier_protocol.Message
use haier_protocol.Protocol.State.{
  send_answer, send_answer_with, handler_ok, unsupported_message, unexpected_message,
  unsupported_subcommand, wrong_message_structure, invalid_answer,
}
use haier_protocol.Hon.Packet.{
  control_size, user_data_size, full_size, alarm_buf_size, subcommand_value, get_user_data,
  get_big_data, set_group_parameters, set_single_parameter, set_point,
}
use haier_protocol.Hon.Packet
use haier_protocol.Hon.Server.{Server, confirm_msg, has_active_alarms}
use haier_protocol.Hon.Parameters.{Handled, reject, status_message, process_single_parameter}

-- "E++2.18", "17062600", 0xF1, two zeros, "17052600", 1, "U-AC", a zero, and the features.
abbrev pub device_version_info_buf : List ℕ
device_version_info_buf =
    b'E' ∷ b'+' ∷ b'+' ∷ b'2' ∷ b'.' ∷ b'1' ∷ b'8' ∷ 0 ∷ b'1' ∷ b'7' ∷ b'0' ∷ b'6' ∷ b'2' ∷ b'6'
    ∷ b'0' ∷ b'0' ∷ 0xf1 ∷ 0 ∷ 0 ∷ b'1' ∷ b'7' ∷ b'0' ∷ b'5' ∷ b'2' ∷ b'6' ∷ b'0' ∷ b'0' ∷ 0x01
    ∷ b'U' ∷ b'-' ∷ b'A' ∷ b'C' ∷ 0 ∷ 0 ∷ 0 ∷ 0 ∷ 0 ∷ 0x04 ∷ 0x5b ∷ []

abbrev pub device_id_buf : List ℕ
device_id_buf =
    0x20 ∷ 0x20 ∷ 0x62 ∷ 0x84 ∷ 0x20 ∷ 0xd2 ∷ 0x85 ∷ 0x34 ∷ 0x02 ∷ 0x12 ∷ 0x71 ∷ 0xfb ∷ 0xe0 ∷ 0xf4
    ∷ 0x0d ∷ 0x00 ∷ 0x00 ∷ 0x00 ∷ 0x82 ∷ 0x0c ∷ 0xc8 ∷ 0x1b ∷ 0xf1 ∷ 0x3c ∷ 0x46 ∷ 0xab ∷ 0x92
    ∷ 0x5b ∷ 0xce ∷ 0x95 ∷ 0x77 ∷ 0xc0 ∷ 0x04 ∷ []

abbrev pub management_information_buf : List ℕ
management_information_buf = 0 ∷ 0 ∷ 0 ∷ 0 ∷ 0 ∷ 0 ∷ []

unfoldable pub get_device_version_handler : ℕ → ℕ → List ℕ → Server → Handled
unfolding Message.make
get_device_version_handler now type buffer server =
    if type == code get_device_version
    then (if length buffer == 0 || length buffer == 2
        then (
          server,
          send_answer_with now
                (Message.make (code get_device_version_response) 0 true device_version_info_buf
                  (length device_version_info_buf))
                true
              ∷ [],
          handler_ok,
        )
        else reject now server wrong_message_structure)
    else reject now server unsupported_message

unfoldable pub get_device_id_handler : ℕ → ℕ → List ℕ → Server → Handled
unfolding Message.make
get_device_id_handler now type buffer server =
    if type == code get_device_id
    then (if length buffer == 0
        then (
          server,
          send_answer_with now
                (Message.make (code get_device_id_response) 0 true device_id_buf
                  (length device_id_buf))
                true
              ∷ [],
          handler_ok,
        )
        else reject now server unsupported_subcommand)
    else reject now server unsupported_message

-- The loop of SET_GROUP_PARAMETERS: `n` bytes from the index `i` on.
unfoldable pub set_group : ℕ → ℕ → List ℕ → List ℕ → List ℕ
set_group zero i buffer status = status
set_group (suc n) i buffer status =
    let byte = get_or buffer (2 + i) 0 in
    set_group n (suc i) buffer (if get_or status i 0 == byte then status else set status i byte)

abbrev pub answer_status : ℕ → ℕ → ℕ → Server → Handled
answer_status now subcommand size server =
    (server, send_answer now (status_message subcommand server.ac_status size) ∷ [], handler_ok)

-- The `switch` on the subcommand.
unfoldable pub process_subcommand : ℕ → ℕ → List ℕ → Server → Handled
unfolding set_group status_message process_single_parameter
process_subcommand now subcommand buffer server =
    if subcommand == subcommand_value get_user_data
    then (if not (length buffer == 2)
        then reject now server wrong_message_structure
        else answer_status now 0x6d01 user_data_size server)
    else if subcommand == subcommand_value get_big_data
    then (if not (length buffer == 2)
        then reject now server wrong_message_structure
        else answer_status now 0x7d01 full_size server)
    else if subcommand == subcommand_value set_group_parameters
    then (if not (length buffer - 2 == control_size)
        then reject now server wrong_message_structure
        else answer_status now 0x6d5f user_data_size
            (record server { ac_status = set_group control_size 0 buffer server.ac_status }))
    else if subcommand / 256 * 256 == subcommand_value set_single_parameter
    then (if not (length buffer == 4)
        then reject now server wrong_message_structure
        else process_single_parameter now (get_or buffer 1 0)
            (get_or buffer 2 0 * 256 + get_or buffer 3 0) server)
    else reject now server unsupported_subcommand

-- The low byte of `buffer[0] << 8` is zero, so that `|` with a byte is a sum.
unfoldable pub status_request_handler : ℕ → ℕ → List ℕ → Server → Handled
unfolding process_subcommand
status_request_handler now type buffer server =
    if type == code control
    then (if ltb (length buffer) 2
        then reject now server wrong_message_structure
        else process_subcommand now (get_or buffer 0 0 * 256 + get_or buffer 1 0) buffer server)
    else reject now server unsupported_message

unfoldable pub alarm_status_handler : ℕ → ℕ → List ℕ → Server → Handled
unfolding Message.make
alarm_status_handler now type buffer server =
    if type == code get_alarm_status
    then (if length buffer == 0
        then (
          server,
          send_answer now (
                Message.make (code get_alarm_status_response) 0x0f5a true server.alarm_status_buf
                  alarm_buf_size)
              ∷ [],
          handler_ok,
        )
        else reject now server wrong_message_structure)
    else reject now server unsupported_message

unfoldable pub get_management_information_handler : ℕ → ℕ → List ℕ → Server → Handled
unfolding Message.make
get_management_information_handler now type buffer server =
    if type == code get_management_information
    then (if length buffer == 0
        then (
          server,
          send_answer now (
                Message.make (code get_management_information_response) 0 true
                  management_information_buf (length management_information_buf))
              ∷ [],
          handler_ok,
        )
        else reject now server unsupported_subcommand)
    else reject now server unsupported_message

-- Out of the configuration mode the set point 14 is taken back to 13.
unfoldable pub leave_configuration : Server → Server
unfolding load assign
leave_configuration server =
    if not server.config_mode && load (Packet.control set_point) server.ac_status == 0x0e
    then record server { ac_status = assign (Packet.control set_point) 0x0d server.ac_status }
    else server

-- What a network status changes.
unfoldable pub network_status : ℕ → Server → Server
unfolding leave_configuration
network_status st server =
    let server = leave_configuration (record server { config_mode = st == 3 }) in
    if not (st == server.communication_status)
    then record server { communication_status = st }
    else server

unfoldable pub report_network_status_handler : ℕ → ℕ → List ℕ → Server → Handled
unfolding network_status
report_network_status_handler now type buffer server =
    if type == code report_network_status
    then (if length buffer == 4
        then (
          network_status (get_or buffer 1 0) server,
          send_answer now confirm_msg ∷ [],
          handler_ok,
        )
        else reject now server wrong_message_structure)
    else reject now server unsupported_message

unfoldable pub alarm_status_report_answer_handler : ℕ → ℕ → List ℕ → Server → Handled
alarm_status_report_answer_handler request_type message_type data_bytes server =
    if request_type == code alarm_status
    then (if message_type == code confirm
        then (if length data_bytes == 0
            then (
              (if not (has_active_alarms server)
                  then record server { alarm_stopped = true }
                  else record server { alarm_paused = true }),
              [],
              handler_ok,
            )
            else (server, [], wrong_message_structure))
        else (server, [], invalid_answer))
    else (server, [], unexpected_message)

unfoldable pub stop_alarm_handler : ℕ → ℕ → List ℕ → Server → Handled
stop_alarm_handler now type buffer server =
    if type == code stop_fault_alarm
    then (if length buffer == 0
        then (record server { alarm_stopped = true }, send_answer now confirm_msg ∷ [], handler_ok)
        else reject now server wrong_message_structure)
    else reject now server unsupported_message
