-- ===== src/SmartAir2/Server.antt =====
-- tools/utils/smartair2_server.cpp and tools/smartair2_simulator/main.cpp. The state is the bytes of
-- `ac_status`.
use haier_protocol.Prelude.{
  ℕ, zero, suc, ◌+◌, ◌-◌, Bool, true, not, ◌&&◌, ◌||◌, List, [], ◌∷◌, length, get_or, set,
  replicate, ltb, ◌==◌, if◌then◌else◌,
}
use haier_protocol.Bits.{BitField, load, assign, assign_all}
use haier_protocol.Frame.Kinds.{code, invalid, confirm, report_network_status}
use haier_protocol.Frame.Kinds
use haier_protocol.Message.{HaierMessage}
use haier_protocol.Message
use haier_protocol.Protocol.State.{
  Call, send_answer, HandlerError, handler_ok, unsupported_message, unsupported_subcommand,
  wrong_message_structure,
}
use haier_protocol.SmartAir2.Packet.{
  control, control_size, conditioning_mode_value, conditioning_auto, cool, fan_mode_value, fan_auto,
  fan_low,
}
use haier_protocol.SmartAir2.Packet

-- What a handler does: the status afterwards, its calls, its result.
abbrev pub Handled : Type 0
Handled = List ℕ × List Call × HandlerError

abbrev pub invalid_msg : HaierMessage
invalid_msg = record {
  frame_type = code invalid;
  subcommand = 0;
  data_size = 2;
  bytes = 0 ∷ 0 ∷ [];
}

abbrev pub confirm_msg : HaierMessage
confirm_msg = record { frame_type = code confirm; subcommand = 0; data_size = 0; bytes = [] }

abbrev pub initial_control : List (BitField × ℕ)
initial_control =
    (control Packet.room_temperature, 18)
    ∷ (control Packet.room_humidity, 56)
    ∷ (control Packet.cntrl, 0x7f)
    ∷ (control Packet.ac_mode, conditioning_mode_value conditioning_auto)
    ∷ (control Packet.fan_mode, fan_mode_value fan_auto)
    ∷ (control Packet.swing_both, 0)
    ∷ (control Packet.use_fahrenheit, 0)
    ∷ (control Packet.lock_remote, 1)
    ∷ (control Packet.ac_power, 0)
    ∷ (control Packet.health_mode, 0)
    ∷ (control Packet.compressor, 1)
    ∷ (control Packet.ten_degree, 0)
    ∷ (control Packet.use_swing_bits, 0)
    ∷ (control Packet.turbo_mode, 1)
    ∷ (control Packet.quiet_mode, 0)
    ∷ (control Packet.horizontal_swing, 0)
    ∷ (control Packet.vertical_swing, 0)
    ∷ (control Packet.display_status, 0)
    ∷ (control Packet.set_point, 25 - 16)
    ∷ []

-- `init_ac_state`
unfoldable pub init_ac_state : List ℕ
unfolding assign_all assign
init_ac_state = assign_all initial_control (replicate control_size 0)

abbrev pub reject : ℕ → List ℕ → HandlerError → Handled
reject now ac_status e = (ac_status, send_answer now invalid_msg ∷ [], e)

unfoldable pub report_network_status_handler : ℕ → ℕ → List ℕ → List ℕ → Handled
report_network_status_handler now type buffer ac_status =
    if type == code report_network_status
    then (if length buffer == 4
        then (ac_status, send_answer now confirm_msg ∷ [], handler_ok)
        else reject now ac_status wrong_message_structure)
    else reject now ac_status unsupported_message

unfoldable pub unsupported_message_handler : ℕ → ℕ → List ℕ → List ℕ → Handled
unsupported_message_handler now type buffer ac_status = reject now ac_status handler_ok

unfoldable pub status_message : ℕ → List ℕ → HaierMessage
unfolding Message.make
status_message subcommand ac_status =
    Message.make (code Kinds.status) subcommand true ac_status control_size

abbrev pub answer_status : ℕ → ℕ → List ℕ → Handled
answer_status now subcommand ac_status =
    (ac_status, send_answer now (status_message subcommand ac_status) ∷ [], handler_ok)

-- The bytes that are the appliance's own: `offsetof` of cntrl, room_temperature and room_humidity.
abbrev pub is_own : ℕ → Bool
is_own i = i == 5 || i == 1 || i == 3

-- The loop that takes the bytes of a group command.
unfoldable pub set_group : ℕ → ℕ → List ℕ → List ℕ → List ℕ
set_group zero i buffer ac_status = ac_status
set_group (suc n) i buffer ac_status =
    let byte = get_or buffer (2 + i) 0 in
    let next =
      if is_own i
      then ac_status
      else (if get_or ac_status i 0 == byte then ac_status else set ac_status i byte) in
    set_group n (suc i) buffer next

-- The tests on the message's bytes: its first two, and its size.
unfoldable pub process_subcommand : ℕ → List ℕ → List ℕ → Handled
unfolding set_group status_message assign
process_subcommand now buffer ac_status =
    let first = get_or buffer 0 0 in
    let second = get_or buffer 1 0 in
    let size = length buffer in
    if size == 2 && first == 0x4d && second == 0x01
    then answer_status now 0x6d01 ac_status
    else if size == 2 && first == 0x4d && second == 0x02
    then answer_status now 0x6d02 (assign (control Packet.ac_power) 1 ac_status)
    else if size == 2 && first == 0x4d && second == 0x03
    then answer_status now 0x6d03 (assign (control Packet.ac_power) 0 ac_status)
    else if ltb 2 size && first == 0x4d && second == 0x5f
    then (if not (size - 2 == control_size)
        then reject now ac_status wrong_message_structure
        else answer_status now 0x6d5f (set_group control_size 0 buffer ac_status))
    else reject now ac_status unsupported_subcommand

unfoldable pub status_request_handler : ℕ → ℕ → List ℕ → List ℕ → Handled
unfolding process_subcommand
status_request_handler now type buffer ac_status =
    if type == code Kinds.control
    then process_subcommand now buffer ac_status
    else reject now ac_status unsupported_message

-- `preloop` of the simulator, with what the keys asked for.
unfoldable pub preloop : Bool → Bool → List ℕ → List ℕ
unfolding load assign assign_all
preloop toggle_ac_power start_pairing ac_status =
    let power = load (control Packet.ac_power) ac_status in
    let ac_status =
      if toggle_ac_power
      then assign (control Packet.ac_power) (if power == 1 then 0 else 1) ac_status
      else ac_status in
    if start_pairing
    then assign_all
        ((control Packet.ac_power, 1)
          ∷ (control Packet.set_point, 14)
          ∷ (control Packet.ac_mode, conditioning_mode_value cool)
          ∷ (control Packet.fan_mode, fan_mode_value fan_low)
          ∷ [])
        ac_status
    else ac_status
