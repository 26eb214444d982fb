-- ===== src/Frame/Kinds.antt =====
-- include/protocol/haier_frame_types.h: the names of the frame types. Everywhere else a frame type is
-- its byte.
use haier_protocol.Prelude.{ℕ}

pub data FrameType : Type 0 where
  unknown_frame_type control status invalid alarm_status confirm report : FrameType
  stop_fault_alarm system_downlink device_uplink system_query system_query_response : FrameType
  device_query device_query_response group_command get_device_version : FrameType
  get_device_version_response get_all_addresses get_all_addresses_response : FrameType
  handset_change_notification get_device_id get_device_id_response get_alarm_status : FrameType
  get_alarm_status_response get_device_configuration get_device_configuration_response : FrameType
  downlink_transparent_transmission uplink_transparent_transmission : FrameType
  start_device_upgrade start_device_upgrade_response get_firmware_content : FrameType
  get_firmware_content_response change_baud_rate change_baud_rate_response : FrameType
  get_subboard_info get_subboard_info_response get_hardware_info : FrameType
  get_hardware_info_response get_upgrade_result get_upgrade_result_response : FrameType
  get_network_status get_network_status_response start_wifi_configuration : FrameType
  start_wifi_configuration_response stop_wifi_configuration : FrameType
  stop_wifi_configuration_response report_network_status clear_configuration : FrameType
  big_data_report_configuration big_data_report_configuration_response : FrameType
  get_management_information get_management_information_response wake_up : FrameType

-- the enumerator's value
abbrev pub code : FrameType → ℕ
code unknown_frame_type = 0x00
code control = 0x01
code status = 0x02
code invalid = 0x03
code alarm_status = 0x04
code confirm = 0x05
code report = 0x06
code stop_fault_alarm = 0x09
code system_downlink = 0x11
code device_uplink = 0x12
code system_query = 0x13
code system_query_response = 0x14
code device_query = 0x15
code device_query_response = 0x16
code group_command = 0x60
code get_device_version = 0x61
code get_device_version_response = 0x62
code get_all_addresses = 0x67
code get_all_addresses_response = 0x68
code handset_change_notification = 0x69
code get_device_id = 0x70
code get_device_id_response = 0x71
code get_alarm_status = 0x73
code get_alarm_status_response = 0x74
code get_device_configuration = 0x7c
code get_device_configuration_response = 0x7d
code downlink_transparent_transmission = 0x8c
code uplink_transparent_transmission = 0x8d
code start_device_upgrade = 0xe1
code start_device_upgrade_response = 0xe2
code get_firmware_content = 0xe5
code get_firmware_content_response = 0xe6
code change_baud_rate = 0xe7
code change_baud_rate_response = 0xe8
code get_subboard_info = 0xe9
code get_subboard_info_response = 0xea
code get_hardware_info = 0xeb
code get_hardware_info_response = 0xec
code get_upgrade_result = 0xed
code get_upgrade_result_response = 0xef
code get_network_status = 0xf0
code get_network_status_response = 0xf1
code start_wifi_configuration = 0xf2
code start_wifi_configuration_response = 0xf3
code stop_wifi_configuration = 0xf4
code stop_wifi_configuration_response = 0xf5
code report_network_status = 0xf7
code clear_configuration = 0xf8
code big_data_report_configuration = 0xfa
code big_data_report_configuration_response = 0xfb
code get_management_information = 0xfc
code get_management_information_response = 0xfd
code wake_up = 0xfe
