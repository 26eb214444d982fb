-- ===== src/Hon/Tests.antt =====
-- Runs of the appliance of tools/utils/hon_server.cpp, and its theorems at concrete states.
use haier_protocol.Prelude.{
  length, some, ℕ, ◌≡◌, ◌≤◌, ◌<◌, ◌⊎◌, refl, true, false, List, [], ◌∷◌, replicate, take, arith,
}
use haier_protocol.Bits.Fields.{IsPacket}
use haier_protocol.Frame.Kinds.{code, control}
use haier_protocol.Frame.Types.{HaierFrame}
use haier_protocol.Transport.Tests.{memory, handler, empty_ring, empty_ring-IsReady}
use haier_protocol.Protocol.State.{
  Protocol, send_answer, handler_ok, find, assign, unsupported_message,
}
use haier_protocol.Protocol.State
use haier_protocol.Protocol.Calls.{apply_all}
use haier_protocol.Protocol.Loop.{loop}
use haier_protocol.Hon.Packet.{full_size, hon_alarm_count, user_data_size}
use haier_protocol.Hon.Server.{
  Server, make, initial_status, get_ac_state_ref, start_alarm, reset_alarms, has_active_alarms,
}
use haier_protocol.Hon.Parameters.{process_single_parameter}
use haier_protocol.Hon.Handlers.{status_request_handler}
use haier_protocol.Hon.Answers.{Answered}
use haier_protocol.Hon.Simulator.{status_request, run, serve, simulator_main, random_alarm}
use haier_protocol.Hon.Serve.{run-Answered, Reply}
use haier_protocol.Hon.Line.{loop-Reply}
use haier_protocol.Circular.{get_size}
use haier_protocol.Frame.Build.{header_accounts, data_accounts}
use haier_protocol.Frame.Build
use haier_protocol.Frame.Checksums.{crc16_byte, crc_table}
use haier_protocol.Frame.Wire.{wire}
use haier_protocol.Transport.State.{Transport}
use haier_protocol.Transport.Io.{read_data}
use haier_protocol.Transport.Taken.{IsSent, wires}
use haier_protocol.Transport.Frames.{AtRest}
use haier_protocol.Hon.Group.{with_control, status_bytes, set_group-get_user_data}
use haier_protocol.Hon.Set.{Outcome, process_single_parameter-Outcome}
use haier_protocol.Hon.Alarms.{Raised, start_alarm_lem}
use haier_protocol.Hon.Reports.{Cycle, start_alarm-Cycle}
use haier_protocol.Hon.Keeps.{IsServer}
use haier_protocol.Hon.Readings.{byte_list-All}
use haier_protocol.Hon.Steps.{set_up, on_message, at_start, then_step, Reached-IsServer}

-- The appliance after `get_ac_state_ref`.
abbrev appliance : Server
appliance = get_ac_state_ref 1000 make

-- The control bytes at the start.
initial_control_bytes : take 10 initial_status ≡ 9 ∷ 12 ∷ 5 ∷ 0 ∷ 2 ∷ 0 ∷ 0 ∷ 7 ∷ 0 ∷ 32 ∷ []
unfolding initial_status
initial_control_bytes = refl

-- A set point of 300 is taken, as the test is on the parameter: 300 % 256 is stored.
set_point_unchecked : take 1 (process_single_parameter 0 2 300 appliance).0.ac_status ≡ 44 ∷ []
unfolding process_single_parameter initial_status
set_point_unchecked = refl

-- Where a `size_t` has four bytes, `reset_alarms` leaves the first alarms on.
reset_leaves_alarm : has_active_alarms (reset_alarms 4 (start_alarm 0 appliance).0) ≡ true
unfolding reset_alarms start_alarm
reset_leaves_alarm = refl

-- Where `rand` gives a multiple of 51, no alarm is started.
random_alarm_none : random_alarm 51 appliance ≡ appliance
unfolding random_alarm
random_alarm_none = refl

run-Answered_example :
    Answered 7 appliance (run status_request 7 (code control) (0x60 ∷ 0x01 ∷ 5 ∷ []) appliance)
run-Answered_example = run-Answered status_request 7 (code control) (0x60 ∷ 0x01 ∷ 5 ∷ []) appliance

-- The protocol handler of the simulator.
abbrev garbage : ℕ → List ℕ
garbage n = replicate n 0

unfoldable protocol : Protocol
unfolding apply_all
protocol = (apply_all memory garbage simulator_main ([], []) (State.make (replicate 251 0) 251)).1

-- A query of the control bytes.
abbrev frame : HaierFrame
frame = Build.make 1 (0x4d ∷ 0x01 ∷ []) 2 true

frame-IsSent : IsSent frame
frame-IsSent = record {
  frame_type = 1;
  bytes = 0x4d ∷ 0x01 ∷ [];
  use_crc = true;
  short = omega arith;
  made = refl;
}

abbrev on_line : Protocol
on_line = record protocol { transport = handler empty_ring }

short_wire : length (wires (frame ∷ [])) ≡ 15
unfolding wire Build.make header_accounts data_accounts crc16_byte crc_table
short_wire = refl

loop-Reply_example :
    let s' = (read_data memory (wires (frame ∷ []), []) (handler empty_ring)).0 in
    (t : Transport) × (r : (List ℕ × List ℕ) × Protocol) × (loop memory garbage
        (serve 9 appliance)
        9
        9
        10
        (wires (frame ∷ []), [])
        on_line
      ≡ some r)
    × Reply memory garbage 9
        (run status_request 9 1 (0x4d ∷ 0x01 ∷ []) appliance)
        frame
        s'
        (record on_line { transport = t })
        r
    × (s'.0 ≡ [])
    × (t.incoming_queue ≡ [])
    × (get_size t.buffer ≡ 0)
    × AtRest t
unfolding protocol find assign State.make Build.make
loop-Reply_example =
    loop-Reply memory garbage status_request 9 9 10 appliance (wires (frame ∷ []), []) on_line frame
      empty_ring-IsReady refl (unfold get_size in refl) refl refl refl refl frame-IsSent refl
      (omega (arith, short_wire))

abbrev group : List ℕ
group = 5 ∷ 2 ∷ 3 ∷ 0 ∷ 2 ∷ 1 ∷ 0 ∷ 7 ∷ 0 ∷ 32 ∷ []

set_group-get_user_data_example :
    let after = with_control group make in
    (status_request_handler 1 (code control) (0x60 ∷ 0x01 ∷ group) make ≡ (
      after,
      send_answer 1 (status_bytes 0x6d5f user_data_size after.ac_status) ∷ [],
      handler_ok,
    ))
    × (status_request_handler 2 (code control) (0x4d ∷ 0x01 ∷ []) after ≡ (
      after,
      send_answer 2 (status_bytes 0x6d01 user_data_size after.ac_status) ∷ [],
      handler_ok,
    ))
    × (status_request_handler 2 (code control) (0x4d ∷ 0xfe ∷ []) after
        ≡ (after, send_answer 2 (status_bytes 0x7d01 full_size after.ac_status) ∷ [], handler_ok))
set_group-get_user_data_example = set_group-get_user_data group make 1 2 refl (omega arith)

process_single_parameter-Outcome_example : Outcome 3 4 6 make (process_single_parameter 3 4 6 make)
process_single_parameter-Outcome_example = process_single_parameter-Outcome 3 4 6 make (omega arith)

no_alarms : IsPacket 8 make.alarm_status_buf
no_alarms = (refl, byte_list-All make.alarm_status_buf refl)

start_alarm_lem_example :
    ((12 < hon_alarm_count)
      × ((start_alarm 12 make).1 ≡ true)
      × Raised 12 make (start_alarm 12 make).0)
    ⊎ ((hon_alarm_count ≤ 12) × (start_alarm 12 make ≡ (make, false)))
start_alarm_lem_example = start_alarm_lem 12 make no_alarms

start_alarm-Cycle_example : Cycle 400 protocol (start_alarm 12 make).0
unfolding protocol State.make
start_alarm-Cycle_example =
    start_alarm-Cycle 12 400 protocol make no_alarms (omega arith) (refl, refl) (omega arith)

-- Set up, then given a group of parameters.
abbrev given_group : Server
given_group = (run status_request 6 1 (0x60 ∷ 0x01 ∷ group) (get_ac_state_ref 5 make)).0

Reached-IsServer_example : IsServer given_group
Reached-IsServer_example = Reached-IsServer (
    then_step (then_step at_start (set_up 5)) (
      on_message status_request 6 1 (0x60 ∷ 0x01 ∷ group)
        (byte_list-All (0x60 ∷ 0x01 ∷ group) refl)))
