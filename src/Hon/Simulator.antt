-- ===== src/Hon/Simulator.antt =====
-- tools/hon_simulator/main.cpp and tools/utils/simulator_base.cpp: the handlers that the simulator
-- registers, the keys, and what happens before each turn of the protocol handler.
use haier_protocol.Prelude.{
  ℕ, ◌-◌, ◌%◌, Bool, true, false, not, List, [], ◌∷◌, get_or, ◌==◌, if◌then◌else◌, u8,
}
use haier_protocol.Bits.{BitField, load, assign_all}
use haier_protocol.Frame.Kinds.{
  FrameType, code, control, get_device_version, get_device_id, get_alarm_status,
  get_management_information, report_network_status, stop_fault_alarm,
}
use haier_protocol.Frame.Kinds
use haier_protocol.Protocol.State.{
  Protocol, Call, Client, Reaction, by_client, handler_ok, set_answer_timeout, set_message_handler,
  set_answer_handler,
}
use haier_protocol.Hon.Packet.{
  hon_alarm_count, vertical_swing_mode_value, vertical_max_up, fan_mode_value, fan_low,
  special_mode_value, special_none, conditioning_mode_value, cool, horizontal_swing_mode_value,
  horizontal_center,
}
use haier_protocol.Hon.Packet
use haier_protocol.Hon.Server.{
  Server, start_alarm, reset_alarms, process_alarms, is_in_configuration_mode,
}
use haier_protocol.Hon.Parameters.{Handled}
use haier_protocol.Hon.Handlers.{
  get_device_version_handler, get_device_id_handler, status_request_handler, alarm_status_handler,
  get_management_information_handler, report_network_status_handler, stop_alarm_handler,
  alarm_status_report_answer_handler,
}

-- The entries of `mhandlers`.
pub data MessageHandler : Type 0 where
  device_version device_id status_request alarm_status : MessageHandler
  management_information network_status stop_alarm : MessageHandler

abbrev pub handled_type : MessageHandler → FrameType
handled_type device_version = get_device_version
handled_type device_id = get_device_id
handled_type status_request = control
handled_type alarm_status = get_alarm_status
handled_type management_information = get_management_information
handled_type network_status = report_network_status
handled_type stop_alarm = stop_fault_alarm

unfoldable pub run : MessageHandler → ℕ → ℕ → List ℕ → Server → Handled
run device_version = get_device_version_handler
run device_id = get_device_id_handler
run status_request = status_request_handler
run alarm_status = alarm_status_handler
run management_information = get_management_information_handler
run network_status = report_network_status_handler
run stop_alarm = stop_alarm_handler

-- The number under which a handler is the client's.
abbrev pub number : MessageHandler → ℕ
number device_version = 0
number device_id = 1
number status_request = 2
number alarm_status = 3
number management_information = 4
number network_status = 5
number stop_alarm = 6

abbrev pub mhandlers : List MessageHandler
mhandlers =
    device_version ∷ device_id ∷ status_request ∷ alarm_status ∷ management_information
    ∷ network_status ∷ stop_alarm ∷ []

abbrev pub registration : MessageHandler → Call
registration h = set_message_handler (code (handled_type h)) (by_client (number h))

-- The calls of `simulator_main`. The maps that it goes through have no order to rely on.
abbrev pub simulator_main : List Call
simulator_main =
    set_answer_timeout 1000
    ∷ registration device_version
    ∷ registration device_id
    ∷ registration status_request
    ∷ registration alarm_status
    ∷ registration management_information
    ∷ registration network_status
    ∷ registration stop_alarm
    ∷ set_answer_handler (code Kinds.alarm_status) (by_client 0)
    ∷ []

abbrev pub reaction : Handled → Reaction
reaction h = (h.1, h.2)

-- The appliance in a state, at a time, as the client of the protocol handler. No handler for a
-- timeout is set.
unfoldable pub serve : ℕ → Server → Client
unfolding run
serve now server = record {
  on_message =
      λ i type buffer. reaction (run (get_or mhandlers i stop_alarm) now type buffer server);
  on_answer = λ i request type buffer.
      reaction (alarm_status_report_answer_handler request type buffer server);
  on_timeout = λ i request. ([], handler_ok);
}

-- The variables of main.cpp that the keys set. `pairing` is `PiringMode::HON_PAIRING`.
pub record Keys : Type 0 where
  pub toggle_ac_power : Bool
  pub pairing : Bool
  pub trigger_random_alarm : Bool
  pub reset_alarm : Bool

-- The assignments of the pairing mode.
abbrev pub pairing_control : List (BitField × ℕ)
pairing_control =
    (Packet.control Packet.set_point, 0x0e)
    ∷ (Packet.control Packet.vertical_swing_mode, vertical_swing_mode_value vertical_max_up)
    ∷ (Packet.control Packet.fan_mode, fan_mode_value fan_low)
    ∷ (Packet.control Packet.special_mode, special_mode_value special_none)
    ∷ (Packet.control Packet.ac_mode, conditioning_mode_value cool)
    ∷ (Packet.control Packet.ten_degree, 0)
    ∷ (Packet.control Packet.display_status, 1)
    ∷ (Packet.control Packet.half_degree, 0)
    ∷ (Packet.control Packet.intelligence_status, 0)
    ∷ (Packet.control Packet.pmv_status, 0)
    ∷ (Packet.control Packet.use_fahrenheit, 0)
    ∷ (Packet.control Packet.ac_power, 1)
    ∷ (Packet.control Packet.health_mode, 1)
    ∷ (Packet.control Packet.electric_heating_status, 0)
    ∷ (Packet.control Packet.fast_mode, 0)
    ∷ (Packet.control Packet.quiet_mode, 0)
    ∷ (Packet.control Packet.sleep_mode, 0)
    ∷ (Packet.control Packet.lock_remote, 0)
    ∷ (Packet.control Packet.beeper_status, 0)
    ∷ (Packet.control Packet.horizontal_swing_mode, horizontal_swing_mode_value horizontal_center)
    ∷ (Packet.control Packet.fresh_air_status, 0)
    ∷ (Packet.control Packet.humidification_status, 0)
    ∷ (Packet.control Packet.pm2p5_cleaning_status, 1)
    ∷ (Packet.control Packet.ch2o_cleaning_status, 1)
    ∷ (Packet.control Packet.self_cleaning_status, 0)
    ∷ (Packet.control Packet.light_status, 0)
    ∷ (Packet.control Packet.energy_saving_status, 0)
    ∷ (Packet.control Packet.cleaning_time_status, 0)
    ∷ []

unfoldable pub change : List (BitField × ℕ) → Server → Server
unfolding assign_all
change members server = record server { ac_status = assign_all members server.ac_status }

-- `ac_power == 1 ? 0 : 1`
unfoldable pub toggle_power : Server → Server
unfolding load change
toggle_power server =
    let ac_power = load (Packet.control Packet.ac_power) server.ac_status in
    change ((Packet.control Packet.ac_power, if ac_power == 1 then 0 else 1) ∷ []) server

-- The alarm's number is `HON_ALARM_COUNT - rand() % HON_ALARM_COUNT`, as a `uint8_t`.
unfoldable pub random_alarm : ℕ → Server → Server
unfolding start_alarm
random_alarm rand server =
    let (server, _) = start_alarm (u8 (hon_alarm_count - rand % hon_alarm_count)) server in server

abbrev pub unless_configuring : (Server → Server) → Server → Server
unless_configuring action server =
    if not (is_in_configuration_mode server) then action server else server

-- `preloop`: what the keys asked for, then the alarms. Arguments are the size of a `size_t`, what
-- `rand` gives, the time, and the protocol handler.
unfoldable pub preloop : ℕ → ℕ → ℕ → Protocol → Keys → Server → Keys × Server × List Call
unfolding toggle_power change random_alarm reset_alarms process_alarms
preloop size_of_size_t rand now p keys server =
    let server = if keys.toggle_ac_power then unless_configuring toggle_power server else server in
    let server =
      if keys.pairing then unless_configuring (change pairing_control) server else server in
    let server = if keys.trigger_random_alarm then random_alarm rand server else server in
    let server = if keys.reset_alarm then reset_alarms size_of_size_t server else server in
    let (server, calls) = process_alarms now p server in
    (
      record {
        toggle_ac_power = false;
        pairing = false;
        trigger_random_alarm = false;
        reset_alarm = false;
      },
      server,
      calls,
    )

-- The functions of `khandlers`, by their keys: what they do to the variables of main.cpp, and to the
-- appliance.
unfoldable pub press_keys : ℕ → Keys → Keys
press_keys key keys =
    if key == b'1'
    then record keys { toggle_ac_power = true }
    else if key == b'2'
    then record keys { pairing = true }
    else if key == b'a'
    then record keys { trigger_random_alarm = true }
    else if key == b's'
    then record keys { reset_alarm = true }
    else keys

abbrev pub stop_cleaning : List (BitField × ℕ)
stop_cleaning =
    (Packet.control Packet.self_cleaning_status, 0) ∷ (Packet.control Packet.steri_clean, 0) ∷ []

-- `field = 1 - field`
abbrev pub inverted : BitField → Server → List (BitField × ℕ)
inverted f server = (f, 1 - load f server.ac_status) ∷ []

unfoldable pub press_server : ℕ → Server → Server
unfolding load change
press_server key server =
    if key == b'3'
    then change stop_cleaning server
    else if key == b'4'
    then change (inverted (Packet.control Packet.quiet_mode) server) server
    else if key == b'5'
    then change (inverted (Packet.control Packet.health_mode) server) server
    else server

abbrev pub press : ℕ → Keys × Server → Keys × Server
press key (keys, server) = (press_keys key keys, press_server key server)
