-- ===== src/Hon/Packet.antt =====
-- tools/utils/hon_packet.h and hon_server.h: the modes, the parameters, and the status of an
-- appliance with the places of its members.
use haier_protocol.Prelude.{ℕ, ◌+◌}
use haier_protocol.Bits.{BitField, whole, bits}

pub data VerticalSwingMode : Type 0 where
  vertical_health_up vertical_max_up vertical_health_down vertical_up : VerticalSwingMode
  vertical_center vertical_down vertical_auto : VerticalSwingMode

abbrev pub vertical_swing_mode_value : VerticalSwingMode → ℕ
vertical_swing_mode_value vertical_health_up = 0x01
vertical_swing_mode_value vertical_max_up = 0x02
vertical_swing_mode_value vertical_health_down = 0x03
vertical_swing_mode_value vertical_up = 0x04
vertical_swing_mode_value vertical_center = 0x06
vertical_swing_mode_value vertical_down = 0x08
vertical_swing_mode_value vertical_auto = 0x0c

pub data HorizontalSwingMode : Type 0 where
  horizontal_center horizontal_max_left horizontal_left : HorizontalSwingMode
  horizontal_right horizontal_max_right horizontal_auto : HorizontalSwingMode

abbrev pub horizontal_swing_mode_value : HorizontalSwingMode → ℕ
horizontal_swing_mode_value horizontal_center = 0x00
horizontal_swing_mode_value horizontal_max_left = 0x03
horizontal_swing_mode_value horizontal_left = 0x04
horizontal_swing_mode_value horizontal_right = 0x05
horizontal_swing_mode_value horizontal_max_right = 0x06
horizontal_swing_mode_value horizontal_auto = 0x07

pub data ConditioningMode : Type 0 where
  conditioning_auto cool dry healthy_dry heat energy_saving fan : ConditioningMode

abbrev pub conditioning_mode_value : ConditioningMode → ℕ
conditioning_mode_value conditioning_auto = 0x00
conditioning_mode_value cool = 0x01
conditioning_mode_value dry = 0x02
conditioning_mode_value healthy_dry = 0x03
conditioning_mode_value heat = 0x04
conditioning_mode_value energy_saving = 0x05
conditioning_mode_value fan = 0x06

pub data DataParameters : Type 0 where
  set_ac_power set_set_point set_ac_mode set_fan_mode set_use_fahrenheit : DataParameters
  set_ten_degree set_health_mode set_beeper_status set_lock_remote : DataParameters
  set_quiet_mode set_fast_mode : DataParameters

abbrev pub data_parameter : DataParameters → ℕ
data_parameter set_ac_power = 0x01
data_parameter set_set_point = 0x02
data_parameter set_ac_mode = 0x04
data_parameter set_fan_mode = 0x05
data_parameter set_use_fahrenheit = 0x07
data_parameter set_ten_degree = 0x0a
data_parameter set_health_mode = 0x0b
data_parameter set_beeper_status = 0x16
data_parameter set_lock_remote = 0x17
data_parameter set_quiet_mode = 0x19
data_parameter set_fast_mode = 0x1a

pub data SpecialMode : Type 0 where
  special_none elderly children pregnant : SpecialMode

abbrev pub special_mode_value : SpecialMode → ℕ
special_mode_value special_none = 0x00
special_mode_value elderly = 0x01
special_mode_value children = 0x02
special_mode_value pregnant = 0x03

pub data FanMode : Type 0 where
  fan_high fan_mid fan_low fan_auto : FanMode

abbrev pub fan_mode_value : FanMode → ℕ
fan_mode_value fan_high = 0x01
fan_mode_value fan_mid = 0x02
fan_mode_value fan_low = 0x03
fan_mode_value fan_auto = 0x05

pub data SubcommandsControl : Type 0 where
  get_parameters get_user_data get_big_data : SubcommandsControl
  set_parameters set_single_parameter set_group_parameters : SubcommandsControl

abbrev pub subcommand_value : SubcommandsControl → ℕ
subcommand_value get_parameters = 0x4c01
subcommand_value get_user_data = 0x4d01
subcommand_value get_big_data = 0x4dfe
subcommand_value set_parameters = 0x5c01
subcommand_value set_single_parameter = 0x5d00
subcommand_value set_group_parameters = 0x6001

-- The members of `HaierPacketControl` with a name.
pub data Control : Type 0 where
  set_point vertical_swing_mode fan_mode special_mode ac_mode : Control
  ten_degree display_status half_degree intelligence_status pmv_status : Control
  use_fahrenheit steri_clean : Control
  ac_power health_mode electric_heating_status fast_mode quiet_mode sleep_mode : Control
  lock_remote beeper_status : Control
  target_humidity horizontal_swing_mode human_sensing_status change_filter : Control
  fresh_air_status humidification_status pm2p5_cleaning_status : Control
  ch2o_cleaning_status self_cleaning_status light_status : Control
  energy_saving_status cleaning_time_status : Control

abbrev pub control : Control → BitField
control set_point = whole 0
control vertical_swing_mode = bits 1 0 4
control fan_mode = bits 2 0 3
control special_mode = bits 2 3 2
control ac_mode = bits 2 5 3
control ten_degree = bits 4 0 1
control display_status = bits 4 1 1
control half_degree = bits 4 2 1
control intelligence_status = bits 4 3 1
control pmv_status = bits 4 4 1
control use_fahrenheit = bits 4 5 1
control steri_clean = bits 4 7 1
control ac_power = bits 5 0 1
control health_mode = bits 5 1 1
control electric_heating_status = bits 5 2 1
control fast_mode = bits 5 3 1
control quiet_mode = bits 5 4 1
control sleep_mode = bits 5 5 1
control lock_remote = bits 5 6 1
control beeper_status = bits 5 7 1
control target_humidity = whole 6
control horizontal_swing_mode = bits 7 0 3
control human_sensing_status = bits 7 6 2
control change_filter = bits 8 0 1
control fresh_air_status = bits 9 0 1
control humidification_status = bits 9 1 1
control pm2p5_cleaning_status = bits 9 2 1
control ch2o_cleaning_status = bits 9 3 1
control self_cleaning_status = bits 9 4 1
control light_status = bits 9 5 1
control energy_saving_status = bits 9 6 1
control cleaning_time_status = bits 9 7 1

abbrev pub control_size : ℕ
control_size = 10

-- The members of `HaierPacketSensors` that are bytes or bit-fields, in `HvacFullStatus`.
pub data Sensors : Type 0 where
  room_temperature room_humidity outdoor_temperature pm2p5_level air_quality : Sensors
  human_sensing ac_type error_status operation_source operation_mode_hk : Sensors
  err_confirmation : Sensors

abbrev pub sensors : Sensors → BitField
sensors room_temperature = whole 10
sensors room_humidity = whole 11
sensors outdoor_temperature = whole 12
sensors pm2p5_level = bits 13 0 2
sensors air_quality = bits 13 2 2
sensors human_sensing = bits 13 4 2
sensors ac_type = bits 13 7 1
sensors error_status = whole 14
sensors operation_source = bits 15 0 2
sensors operation_mode_hk = bits 15 2 2
sensors err_confirmation = bits 15 7 1

-- The members that are words, by their positions.
pub data SensorWords : Type 0 where
  total_cleaning_time indoor_pm2p5_value outdoor_pm2p5_value : SensorWords
  ch2o_value voc_value co2_value : SensorWords

abbrev pub sensor_words : SensorWords → ℕ
sensor_words total_cleaning_time = 16
sensor_words indoor_pm2p5_value = 18
sensor_words outdoor_pm2p5_value = 20
sensor_words ch2o_value = 22
sensor_words voc_value = 24
sensor_words co2_value = 26

abbrev pub sensors_size : ℕ
sensors_size = 18

abbrev pub sensors_spare_size : ℕ
sensors_spare_size = 4

-- The members of `HaierPacketBigData`; an array by its index.
pub data BigData : Type 0 where
  power compressor_current expansion_valve_open_degree : ℕ → BigData
  indoor_coil_temperature outdoor_out_air_temperature outdoor_coil_temperature : BigData
  outdoor_in_air_temperature outdoor_defrost_temperature compressor_frequency : BigData
  outdoor_fan_status defrost_status compressor_status indoor_fan_status : BigData
  four_way_valve_status indoor_electric_heating_status : BigData

abbrev pub big_data : BigData → BitField
big_data (power i) = whole (32 + i)
big_data indoor_coil_temperature = whole 34
big_data outdoor_out_air_temperature = whole 35
big_data outdoor_coil_temperature = whole 36
big_data outdoor_in_air_temperature = whole 37
big_data outdoor_defrost_temperature = whole 38
big_data compressor_frequency = whole 39
big_data (compressor_current i) = whole (40 + i)
big_data outdoor_fan_status = bits 42 0 2
big_data defrost_status = bits 42 2 2
big_data compressor_status = bits 43 0 2
big_data indoor_fan_status = bits 43 2 2
big_data four_way_valve_status = bits 43 4 2
big_data indoor_electric_heating_status = bits 43 6 2
big_data (expansion_valve_open_degree i) = whole (44 + i)

abbrev pub big_data_size : ℕ
big_data_size = 14

-- `HvacFullStatus`, the three structures with the spare bytes before the last.
abbrev pub full_size : ℕ
full_size = control_size + sensors_size + sensors_spare_size + big_data_size

-- `USER_DATA_SIZE`
abbrev pub user_data_size : ℕ
user_data_size = control_size + sensors_size + sensors_spare_size

-- `HON_ALARM_COUNT`, the number of the messages.
abbrev pub hon_alarm_count : ℕ
hon_alarm_count = 51

abbrev pub alarm_buf_size : ℕ
alarm_buf_size = 8
