-- ===== src/SmartAir2/Packet.antt =====
-- tools/utils/smartair2_packet.h: the modes, and the places of the packet's members.
use haier_protocol.Prelude.{ℕ}
use haier_protocol.Bits.{BitField, whole, bits}

pub data ConditioningMode : Type 0 where
  conditioning_auto cool heat fan dry : ConditioningMode

abbrev pub conditioning_mode_value : ConditioningMode → ℕ
conditioning_mode_value conditioning_auto = 0x00
conditioning_mode_value cool = 0x01
conditioning_mode_value heat = 0x02
conditioning_mode_value fan = 0x03
conditioning_mode_value dry = 0x04

pub data FanMode : Type 0 where
  fan_high fan_mid fan_low fan_auto : FanMode

abbrev pub fan_mode_value : FanMode → ℕ
fan_mode_value fan_high = 0x00
fan_mode_value fan_mid = 0x01
fan_mode_value fan_low = 0x02
fan_mode_value fan_auto = 0x03

-- The members of `HaierPacketControl` with a name.
pub data Control : Type 0 where
  room_temperature room_humidity cntrl ac_mode fan_mode swing_both : Control
  use_fahrenheit lock_remote ac_power health_mode compressor ten_degree : Control
  use_swing_bits turbo_mode quiet_mode horizontal_swing vertical_swing : Control
  display_status set_point : Control

abbrev pub control : Control → BitField
control room_temperature = whole 1
control room_humidity = whole 3
control cntrl = whole 5
control ac_mode = whole 11
control fan_mode = whole 13
control swing_both = whole 15
control use_fahrenheit = bits 16 3 1
control lock_remote = bits 16 7 1
control ac_power = bits 17 0 1
control health_mode = bits 17 3 1
control compressor = bits 17 4 1
control ten_degree = bits 17 6 1
control use_swing_bits = bits 19 0 1
control turbo_mode = bits 19 1 1
control quiet_mode = bits 19 2 1
control horizontal_swing = bits 19 3 1
control vertical_swing = bits 19 4 1
control display_status = bits 19 5 1
control set_point = whole 23

abbrev pub control_size : ℕ
control_size = 24
