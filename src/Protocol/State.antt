-- ===== src/Protocol/State.antt =====
-- include/protocol/haier_protocol.h: the state of a `ProtocolHandler`, and what a client's handlers
-- are to it.
use haier_protocol.Prelude.{
  ℕ, Bool, true, false, length, List, [], ◌∷◌, Option, none, some, ◌==◌, if◌then◌else◌, ◌+◌,
}
use haier_protocol.Message.{HaierMessage}
use haier_protocol.Frame.Types.{max_frame_size}
use haier_protocol.Transport.State.{Transport}
use haier_protocol.Transport.State

pub data HandlerError : Type 0 where
  handler_ok unsupported_message unexpected_message unsupported_subcommand : HandlerError
  wrong_message_structure runtime_error unknown_error invalid_answer : HandlerError

pub data ProtocolState : Type 0 where
  idle waiting_for_answer : ProtocolState

pub record OutgoingQueueItem : Type 0 where
  pub message : HaierMessage
  pub use_crc : Bool
  pub no_answer : Bool
  pub number_of_retries : ℕ
  pub retry_interval : ℕ

-- A function object that was set: the default of the source, or one of the client's.
pub data Handler : Type 0 where
  by_default : Handler
  by_client : ℕ → Handler

-- `std::map<FrameType, …>`
abbrev pub HandlersMap : Type 0
HandlersMap = List (ℕ × Handler)

unfoldable pub find : ℕ → HandlersMap → Option Handler
find k [] = none
find k ((j, h) ∷ m) = if j == k then some h else find k m

-- `map[k] = h`
unfoldable pub assign : ℕ → Handler → HandlersMap → HandlersMap
assign k h [] = (k, h) ∷ []
assign k h ((j, g) ∷ m) = if j == k then (k, h) ∷ m else (j, g) ∷ assign k h m

unfoldable pub erase : ℕ → HandlersMap → HandlersMap
erase k [] = []
erase k ((j, g) ∷ m) = if j == k then m else (j, g) ∷ erase k m

-- Times and intervals are milliseconds.
pub record Protocol : Type 0 where
  pub transport : Transport
  pub message_handlers_map : HandlersMap
  pub answer_handlers_map : HandlersMap
  pub timeout_handlers_map : HandlersMap
  pub outgoing_messages : List OutgoingQueueItem
  pub default_message_handler : Handler
  pub default_answer_handler : Handler
  pub default_timeout_handler : Handler
  pub state : ProtocolState
  pub processing_message : Bool
  pub incoming_message_crc_status : Bool
  pub answer_sent : Bool
  pub last_message_type : ℕ
  pub answer_timeout_interval : ℕ
  pub cooldown_interval : ℕ
  pub cooldown_time_point : ℕ
  pub answer_time_point : ℕ
  pub retry_time_point : ℕ

abbrev pub max_packet_retries : ℕ
max_packet_retries = 9

abbrev pub default_answer_timeout : ℕ
default_answer_timeout = 200

abbrev pub default_cooldown_interval : ℕ
default_cooldown_interval = 400

-- The constructor; the one without a size asks for `MAX_FRAME_SIZE + 10`.
unfoldable pub make : List ℕ → ℕ → Protocol
make storage buffer_size = record {
  transport = State.make storage buffer_size;
  message_handlers_map = [];
  answer_handlers_map = [];
  timeout_handlers_map = [];
  outgoing_messages = [];
  default_message_handler = by_default;
  default_answer_handler = by_default;
  default_timeout_handler = by_default;
  state = idle;
  processing_message = false;
  incoming_message_crc_status = false;
  answer_sent = false;
  last_message_type = 0;
  answer_timeout_interval = default_answer_timeout;
  cooldown_interval = default_cooldown_interval;
  cooldown_time_point = 0;
  answer_time_point = 0;
  retry_time_point = 0;
}

abbrev pub default_buffer_size : ℕ
default_buffer_size = max_frame_size + 10

abbrev pub is_waiting : ProtocolState → Bool
is_waiting idle = false
is_waiting waiting_for_answer = true

abbrev pub is_waiting_for_answer : Protocol → Bool
is_waiting_for_answer p = is_waiting p.state

abbrev pub get_outgoing_queue_size : Protocol → ℕ
get_outgoing_queue_size p = length p.outgoing_messages

-- A public call on the handler, with the time at which it is made where the code asks for it.
pub data Call : Type 0 where
  set_answer_timeout set_cooldown_interval : ℕ → Call
  send_message : HaierMessage → Bool → ℕ → ℕ → Call
  send_message_without_answer : HaierMessage → Bool → Call
  send_answer : ℕ → HaierMessage → Call
  send_answer_with : ℕ → HaierMessage → Bool → Call
  no_answer : Call
  set_message_handler set_answer_handler set_timeout_handler : ℕ → Handler → Call
  remove_message_handler remove_answer_handler remove_timeout_handler : ℕ → Call
  set_default_message_handler set_default_answer_handler : Handler → Call
  set_default_timeout_handler : Handler → Call

-- What a handler does when it is called: its calls on the protocol handler in order, and its result.
abbrev pub Reaction : Type 0
Reaction = List Call × HandlerError

-- The client's function objects.
pub record Client : Type 0 where
  pub on_message : ℕ → ℕ → List ℕ → Reaction
  pub on_answer : ℕ → ℕ → ℕ → List ℕ → Reaction
  pub on_timeout : ℕ → ℕ → Reaction
