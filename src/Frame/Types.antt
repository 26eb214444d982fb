-- ===== src/Frame/Types.antt =====
-- include/transport/haier_frame.h: the constants of the frame format, and a frame.
use haier_protocol.Prelude.{ℕ, ◌-◌, Bool, true, List, []}

abbrev pub max_frame_size : ℕ
max_frame_size = 0xf1

abbrev pub frame_header_size : ℕ
frame_header_size = 0x0a

abbrev pub separator_byte : ℕ
separator_byte = 0xff

abbrev pub separator_post_byte : ℕ
separator_post_byte = 0x55

abbrev pub frame_separators_count : ℕ
frame_separators_count = 0x02

abbrev pub pure_header_size : ℕ
pure_header_size = frame_header_size - frame_separators_count

-- The constants of src/transport/haier_frame.cpp.
abbrev pub use_crc_mask : ℕ
use_crc_mask = 0x40

abbrev pub header_size_pos : ℕ
header_size_pos = 0x02

abbrev pub header_crc_flag_pos : ℕ
header_crc_flag_pos = 0x03

abbrev pub header_frame_type_pos : ℕ
header_frame_type_pos = 0x09

abbrev pub initial_crc : ℕ
initial_crc = 0

pub data FrameStatus : Type 0 where
  frame_complete frame_header_only frame_empty : FrameStatus

-- the enumerator's value, in the order of their declaration
abbrev pub status_value : FrameStatus → ℕ
status_value frame_complete = 0
status_value frame_header_only = 1
status_value frame_empty = 2

pub data FrameError : Type 0 where
  complete_frame header_only frame_separator_wrong header_too_small frame_too_big : FrameError
  frame_too_small data_size_wrong checksum_wrong crc_wrong : FrameError
  wrong_post_separator_byte unknown_data : FrameError

-- `HaierFrame`. The null pointer of a frame without data is the empty list.
pub record HaierFrame : Type 0 where
  pub frame_type : ℕ
  pub use_crc : Bool
  pub data_size : ℕ
  pub checksum : ℕ
  pub crc : ℕ
  pub bytes : List ℕ
  pub status : FrameStatus
  pub additional_bytes : ℕ

-- The default constructor, and what `reset` leaves.
abbrev pub empty_frame : HaierFrame
empty_frame = record {
  frame_type = 0;
  use_crc = true;
  data_size = 0;
  checksum = 0;
  crc = initial_crc;
  bytes = [];
  status = frame_empty;
  additional_bytes = 0;
}

unfoldable pub reset : HaierFrame → HaierFrame
reset f = empty_frame
