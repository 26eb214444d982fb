-- ===== src/Hon/Parameters.antt =====
-- tools/utils/hon_server.cpp: `process_single_parameter`, which sets one member of the status.
use haier_protocol.Prelude.{ℕ, true, ◌&&◌, ◌||◌, List, [], ◌∷◌, leb, ◌==◌, if◌then◌else◌}
use haier_protocol.Bits.{BitField, load, assign}
use haier_protocol.Frame.Kinds.{code}
use haier_protocol.Frame.Kinds
use haier_protocol.Message.{HaierMessage}
use haier_protocol.Message
use haier_protocol.Protocol.State.{
  Call, send_answer, HandlerError, handler_ok, unsupported_message, unsupported_subcommand,
}
use haier_protocol.Hon.Packet.{
  control, user_data_size, data_parameter, set_ac_power, set_set_point, set_ac_mode, set_fan_mode,
  set_use_fahrenheit, set_ten_degree, set_health_mode, set_beeper_status, set_lock_remote,
  set_quiet_mode, set_fast_mode, ac_power, set_point, ac_mode, fan_mode, use_fahrenheit, ten_degree,
  health_mode, beeper_status, lock_remote, quiet_mode, fast_mode,
}
use haier_protocol.Hon.Server.{Server, invalid_msg}

-- What a handler does: the appliance afterwards, its calls, its result.
abbrev pub Handled : Type 0
Handled = Server × List Call × HandlerError

abbrev pub reject : ℕ → Server → HandlerError → Handled
reject now server e = (server, send_answer now invalid_msg ∷ [], e)

-- the first bytes of the status, with a subcommand
unfoldable pub status_message : ℕ → List ℕ → ℕ → HaierMessage
unfolding Message.make
status_message subcommand ac_status size =
    Message.make (code Kinds.status) subcommand true ac_status size

-- The macro `SET_IF_DIFFERENT`.
unfoldable pub set_if_different : BitField → ℕ → List ℕ → List ℕ
unfolding load assign
set_if_different f value status = if load f status == value then status else assign f value status

abbrev pub store_in : BitField → ℕ → List ℕ → List ℕ × HandlerError
store_in f value status = (set_if_different f value status, handler_ok)

-- The cases that test `value <= 1`.
abbrev pub store_flag : BitField → ℕ → List ℕ → List ℕ × HandlerError
store_flag f value status =
    if leb value 1 then store_in f value status else (status, unsupported_message)

-- The `switch`. The tests of SET_POINT, AC_MODE and FAN_MODE are on `parameter`, not on `value`.
unfoldable pub single_parameter : ℕ → ℕ → List ℕ → List ℕ × HandlerError
unfolding set_if_different
single_parameter parameter value status =
    if parameter == data_parameter set_ac_power
    then store_flag (control ac_power) value status
    else if parameter == data_parameter set_set_point
    then (if leb 0 parameter && leb parameter 14
        then store_in (control set_point) value status
        else (status, unsupported_message))
    else if parameter == data_parameter set_ac_mode
    then (if leb 0 parameter && leb parameter 6
        then store_in (control ac_mode) value status
        else (status, unsupported_message))
    else if parameter == data_parameter set_fan_mode
    then (if leb 1 parameter && leb parameter 3 || parameter == 5
        then store_in (control fan_mode) value status
        else (status, unsupported_message))
    else if parameter == data_parameter set_use_fahrenheit
    then store_flag (control use_fahrenheit) value status
    else if parameter == data_parameter set_ten_degree
    then store_flag (control ten_degree) value status
    else if parameter == data_parameter set_health_mode
    then store_flag (control health_mode) value status
    else if parameter == data_parameter set_beeper_status
    then store_flag (control beeper_status) value status
    else if parameter == data_parameter set_lock_remote
    then store_flag (control lock_remote) value status
    else if parameter == data_parameter set_quiet_mode
    then store_flag (control quiet_mode) value status
    else if parameter == data_parameter set_fast_mode
    then store_flag (control fast_mode) value status
    else (status, unsupported_subcommand)

-- The status, or the message for a wrong request.
abbrev pub answer_parameter : ℕ → Server → HandlerError → Handled
answer_parameter now server handler_ok = (
  server,
  send_answer now (status_message 0x6d01 server.ac_status user_data_size) ∷ [],
  handler_ok,
)
answer_parameter now server e = reject now server e

unfoldable pub process_single_parameter : ℕ → ℕ → ℕ → Server → Handled
unfolding single_parameter status_message
process_single_parameter now parameter value server =
    let (status, result) = single_parameter parameter value server.ac_status in
    answer_parameter now (record server { ac_status = status }) result
