-- ===== src/Hon/Layout.antt =====
-- tools/utils/hon_packet.h: where the members of the status lie.
use haier_protocol.Prelude.{arith}
use haier_protocol.Bits.Fields.{Fits}
use haier_protocol.Hon.Packet.{
  Control, control, control_size, set_point, vertical_swing_mode, fan_mode, special_mode, ac_mode,
  ten_degree, display_status, half_degree, intelligence_status, pmv_status, use_fahrenheit,
  steri_clean, ac_power, health_mode, electric_heating_status, fast_mode, quiet_mode, sleep_mode,
  lock_remote, beeper_status, target_humidity, horizontal_swing_mode, human_sensing_status,
  change_filter, fresh_air_status, humidification_status, pm2p5_cleaning_status,
  ch2o_cleaning_status, self_cleaning_status, light_status, energy_saving_status,
  cleaning_time_status,
}

-- Each control member lies in one of the ten control bytes.
pub control-Fits : (c : Control) → Fits control_size (control c)
control-Fits set_point = (omega arith, omega arith)
control-Fits vertical_swing_mode = (omega arith, omega arith)
control-Fits fan_mode = (omega arith, omega arith)
control-Fits special_mode = (omega arith, omega arith)
control-Fits ac_mode = (omega arith, omega arith)
control-Fits ten_degree = (omega arith, omega arith)
control-Fits display_status = (omega arith, omega arith)
control-Fits half_degree = (omega arith, omega arith)
control-Fits intelligence_status = (omega arith, omega arith)
control-Fits pmv_status = (omega arith, omega arith)
control-Fits use_fahrenheit = (omega arith, omega arith)
control-Fits steri_clean = (omega arith, omega arith)
control-Fits ac_power = (omega arith, omega arith)
control-Fits health_mode = (omega arith, omega arith)
control-Fits electric_heating_status = (omega arith, omega arith)
control-Fits fast_mode = (omega arith, omega arith)
control-Fits quiet_mode = (omega arith, omega arith)
control-Fits sleep_mode = (omega arith, omega arith)
control-Fits lock_remote = (omega arith, omega arith)
control-Fits beeper_status = (omega arith, omega arith)
control-Fits target_humidity = (omega arith, omega arith)
control-Fits horizontal_swing_mode = (omega arith, omega arith)
control-Fits human_sensing_status = (omega arith, omega arith)
control-Fits change_filter = (omega arith, omega arith)
control-Fits fresh_air_status = (omega arith, omega arith)
control-Fits humidification_status = (omega arith, omega arith)
control-Fits pm2p5_cleaning_status = (omega arith, omega arith)
control-Fits ch2o_cleaning_status = (omega arith, omega arith)
control-Fits self_cleaning_status = (omega arith, omega arith)
control-Fits light_status = (omega arith, omega arith)
control-Fits energy_saving_status = (omega arith, omega arith)
control-Fits cleaning_time_status = (omega arith, omega arith)
