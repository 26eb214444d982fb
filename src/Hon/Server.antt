-- ===== src/Hon/Server.antt =====
-- tools/utils/hon_server.cpp: the state of the appliance, its start, and its alarms.
use Prim.Native.Nat.{bit_or}
use haier_protocol.Prelude.{
  ℕ, ◌+◌, ◌-◌, ◌*◌, ◌/◌, ◌%◌, ◌^◌, Bool, true, false, not, ◌&&◌, ◌||◌, List, [], ◌∷◌, get_or, set,
  replicate, store_at, ltb, leb, ◌==◌, if◌then◌else◌, u8,
}
use haier_protocol.Bits.{BitField, load, assign, assign_word, assign_all}
use haier_protocol.Frame.Kinds.{code, invalid, confirm, alarm_status}
use haier_protocol.Message.{HaierMessage}
use haier_protocol.Message
use haier_protocol.Protocol.State.{
  Protocol, is_waiting_for_answer, get_outgoing_queue_size, Call, send_message,
}
use haier_protocol.Hon.Packet.{
  control, sensors, sensor_words, big_data, full_size, alarm_buf_size, hon_alarm_count,
  vertical_swing_mode_value, vertical_auto, horizontal_swing_mode_value, horizontal_auto,
  conditioning_mode_value, conditioning_auto, special_mode_value, special_none, fan_mode_value,
  fan_auto,
}
use haier_protocol.Hon.Packet

-- The variables of the file. `HvacFullStatus` is its bytes.
pub record Server : Type 0 where
  pub ac_status : List ℕ
  pub config_mode : Bool
  pub alarm_status_buf : List ℕ
  pub communication_status : ℕ
  pub last_alarm_message : ℕ
  pub alarm_paused : Bool
  pub alarm_stopped : Bool
  pub first_run : Bool

abbrev pub invalid_msg : HaierMessage
invalid_msg = record {
  frame_type = code invalid;
  subcommand = 0;
  data_size = 2;
  bytes = 0 ∷ 0 ∷ [];
}

abbrev pub confirm_msg : HaierMessage
confirm_msg = record { frame_type = code confirm; subcommand = 0; data_size = 0; bytes = [] }

-- before `main`
abbrev pub make : Server
make = record {
  ac_status = replicate full_size 0;
  config_mode = false;
  alarm_status_buf = replicate alarm_buf_size 0;
  communication_status = 0xff;
  last_alarm_message = 0;
  alarm_paused = false;
  alarm_stopped = false;
  first_run = true;
}

-- the alarm status with the subcommand 0x0F5A
unfoldable pub alarm_report : List ℕ → HaierMessage
unfolding Message.make
alarm_report buf = Message.make (code alarm_status) 0x0f5a true buf alarm_buf_size

abbrev pub short_alarm_report_interval_ms : ℕ
short_alarm_report_interval_ms = 300

abbrev pub long_alarm_report_interval_ms : ℕ
long_alarm_report_interval_ms = 5000

-- The loop of `has_active_alarms`.
abbrev pub has_alarm : List ℕ → Bool
has_alarm [] = false
has_alarm (b ∷ rest) = if not (b == 0) then true else has_alarm rest

abbrev pub has_active_alarms : Server → Bool
has_active_alarms server = has_alarm server.alarm_status_buf

-- The assignments of `init_ac_state` that name a value, in their order, but for the words.
abbrev pub initial_control : List (BitField × ℕ)
initial_control =
    (control Packet.set_point, 25 - 16)
    ∷ (control Packet.vertical_swing_mode, vertical_swing_mode_value vertical_auto)
    ∷ (control Packet.fan_mode, fan_mode_value fan_auto)
    ∷ (control Packet.special_mode, special_mode_value special_none)
    ∷ (control Packet.ac_mode, conditioning_mode_value conditioning_auto)
    ∷ (control Packet.ten_degree, 0)
    ∷ (control Packet.display_status, 1)
    ∷ (control Packet.half_degree, 0)
    ∷ (control Packet.intelligence_status, 0)
    ∷ (control Packet.pmv_status, 0)
    ∷ (control Packet.use_fahrenheit, 0)
    ∷ (control Packet.ac_power, 0)
    ∷ (control Packet.health_mode, 0)
    ∷ (control Packet.electric_heating_status, 0)
    ∷ (control Packet.fast_mode, 0)
    ∷ (control Packet.quiet_mode, 0)
    ∷ (control Packet.sleep_mode, 0)
    ∷ (control Packet.lock_remote, 0)
    ∷ (control Packet.beeper_status, 0)
    ∷ (control Packet.target_humidity, 0)
    ∷ (control Packet.horizontal_swing_mode, horizontal_swing_mode_value horizontal_auto)
    ∷ (control Packet.human_sensing_status, 0)
    ∷ (control Packet.change_filter, 0)
    ∷ (control Packet.fresh_air_status, 0)
    ∷ (control Packet.humidification_status, 0)
    ∷ (control Packet.pm2p5_cleaning_status, 0)
    ∷ (control Packet.ch2o_cleaning_status, 0)
    ∷ (control Packet.self_cleaning_status, 0)
    ∷ (control Packet.light_status, 1)
    ∷ (control Packet.energy_saving_status, 0)
    ∷ (control Packet.cleaning_time_status, 0)
    ∷ []

abbrev pub initial_sensors : List (BitField × ℕ)
initial_sensors =
    (sensors Packet.room_temperature, 18 * 2)
    ∷ (sensors Packet.room_humidity, 0)
    ∷ (sensors Packet.outdoor_temperature, 10 + 64)
    ∷ (sensors Packet.pm2p5_level, 0)
    ∷ (sensors Packet.air_quality, 0)
    ∷ (sensors Packet.human_sensing, 0)
    ∷ (sensors Packet.ac_type, 0)
    ∷ (sensors Packet.error_status, 0)
    ∷ (sensors Packet.operation_source, 3)
    ∷ (sensors Packet.operation_mode_hk, 0)
    ∷ (sensors Packet.err_confirmation, 0)
    ∷ []

abbrev pub clear_sensor_words : List ℕ → List ℕ
clear_sensor_words status =
    let status = assign_word (sensor_words Packet.total_cleaning_time) 0 status in
    let status = assign_word (sensor_words Packet.indoor_pm2p5_value) 0 status in
    let status = assign_word (sensor_words Packet.outdoor_pm2p5_value) 0 status in
    let status = assign_word (sensor_words Packet.ch2o_value) 0 status in
    let status = assign_word (sensor_words Packet.voc_value) 0 status in
    assign_word (sensor_words Packet.co2_value) 0 status

-- The assignments to `big_data`, where the temperatures read what was assigned before. The code
-- writes `power[0]` twice and `power[1]` only by `memset`.
abbrev pub initial_big_data : ℕ → ℕ → List (BitField × ℕ)
initial_big_data room outdoor =
    (big_data (Packet.power 0), 0)
    ∷ (big_data (Packet.power 0), 0)
    ∷ (big_data Packet.indoor_coil_temperature, room + 40)
    ∷ (big_data Packet.outdoor_out_air_temperature, outdoor)
    ∷ (big_data Packet.outdoor_coil_temperature, outdoor)
    ∷ (big_data Packet.outdoor_in_air_temperature, outdoor)
    ∷ (big_data Packet.outdoor_defrost_temperature, outdoor)
    ∷ (big_data Packet.compressor_frequency, 0)
    ∷ (big_data (Packet.compressor_current 0), 0)
    ∷ (big_data (Packet.compressor_current 1), 0)
    ∷ (big_data Packet.outdoor_fan_status, 0)
    ∷ (big_data Packet.defrost_status, 0)
    ∷ (big_data Packet.compressor_status, 0)
    ∷ (big_data Packet.indoor_fan_status, 0)
    ∷ (big_data Packet.four_way_valve_status, 0)
    ∷ (big_data Packet.indoor_electric_heating_status, 0)
    ∷ (big_data (Packet.expansion_valve_open_degree 0), 0)
    ∷ (big_data (Packet.expansion_valve_open_degree 1), 0)
    ∷ []

-- What `init_ac_state` makes of the status.
unfoldable pub initial_status : List ℕ
unfolding assign_all assign load
initial_status =
    let status = assign_all initial_control (replicate full_size 0) in
    let status = clear_sensor_words (assign_all initial_sensors status) in
    assign_all
      (initial_big_data (load (sensors Packet.room_temperature) status)
        (load (sensors Packet.outdoor_temperature) status))
      status

abbrev pub init_ac_state : ℕ → Server → Server
init_ac_state now server = record server {
  ac_status = initial_status;
  last_alarm_message = now;
  alarm_paused = false;
  alarm_stopped = true;
}

abbrev pub get_ac_state_ref : ℕ → Server → Server
get_ac_state_ref now server =
    if server.first_run then init_ac_state now (record server { first_run = false }) else server

abbrev pub is_in_configuration_mode : Server → Bool
is_in_configuration_mode server = server.config_mode

-- `process_alarms`: the alarms are reported again where the protocol handler has nothing to do and the
-- interval is over.
unfoldable pub process_alarms : ℕ → Protocol → Server → Server × List Call
process_alarms now p server =
    if not server.alarm_stopped && not (is_waiting_for_answer p) && get_outgoing_queue_size p == 0
    then (let elapsed = now - server.last_alarm_message in
        if server.alarm_paused && ltb long_alarm_report_interval_ms elapsed
          || not server.alarm_paused && ltb short_alarm_report_interval_ms elapsed
        then (
          record server { alarm_paused = false; last_alarm_message = now },
          send_message (alarm_report server.alarm_status_buf) true 0 0 ∷ [],
        )
        else (server, []))
    else (server, [])

-- The new server, and whether the alarm exists.
unfoldable pub start_alarm : ℕ → Server → Server × Bool
start_alarm alarm_id server =
    if leb hon_alarm_count alarm_id
    then (server, false)
    else (let i = alarm_buf_size - 1 - alarm_id / 8 in
        let buf = server.alarm_status_buf in
        (
          record server {
            alarm_paused = false;
            alarm_stopped = false;
            alarm_status_buf = set buf i (u8 (bit_or (get_or buf i 0) (2 ^ (alarm_id % 8))));
          },
          true,
        ))

-- `reset_alarms` clears `sizeof(ALARM_BUF_SIZE)` bytes, the size of a `size_t`, the argument here.
unfoldable pub reset_alarms : ℕ → Server → Server
unfolding store_at
reset_alarms size_of_size_t server = record server {
  alarm_status_buf = store_at server.alarm_status_buf 0 (replicate size_of_size_t 0);
  alarm_paused = false;
}
