-- ===== src/Hon/Steps.antt =====
-- tools/utils/hon_server.cpp and tools/hon_simulator/main.cpp: the steps of the appliance, and what
-- holds in every state that they reach.
use haier_protocol.Prelude.{
  All-replicate, ℕ, ◌≡◌, refl, Bool, true, not, List, [], ◌∷◌, All, IsByte, arith, ◌==◌,
  if◌then◌else◌, or_else,
}
use haier_protocol.Bits.{BitField, load}
use haier_protocol.Protocol.State.{Protocol, Call}
use haier_protocol.Hon.Packet.{
  control_size, full_size, alarm_buf_size, subcommand_value, get_user_data, get_big_data,
  set_group_parameters, set_single_parameter,
}
use haier_protocol.Hon.Packet
use haier_protocol.Hon.Server.{Server, make, get_ac_state_ref, process_alarms, reset_alarms}
use haier_protocol.Hon.Handlers.{alarm_status_report_answer_handler}
use haier_protocol.Hon.Simulator.{
  MessageHandler, run, Keys, preloop, press, press_server, stop_cleaning, inverted, change,
  toggle_power, random_alarm, pairing_control, unless_configuring,
}
use haier_protocol.Hon.Readings.{readings, narrow, assign_all-IsStatus}
use haier_protocol.Hon.Kept.{set_up-IsServer, run-Keeps, answer-Keeps}
use haier_protocol.Hon.Keeps.{
  IsServer, no_alarms-IsKnown, with_status, with_reports, start_alarm-IsServer,
  reset_alarms-IsServer,
}

-- What the appliance does: it is set up, a message handler runs on the bytes of a frame, the answer to
-- a report arrives, a turn begins, or a key is pressed.
pub data Step : Server → Server → Type 0 where
  set_up : {s : Server} (now : ℕ) → Step s (get_ac_state_ref now s)
  on_message :
      {s : Server} (h : MessageHandler) (now type : ℕ) (buffer : List ℕ)
      → All IsByte buffer
      → Step s (run h now type buffer s).0
  on_answer :
      {s : Server} (request_type type : ℕ) (bytes : List ℕ)
      → Step s (alarm_status_report_answer_handler request_type type bytes s).0
  before_turn :
      {s : Server} (size_of_size_t rand now : ℕ) (p : Protocol) (keys : Keys)
      → Step s (preloop size_of_size_t rand now p keys s).1
  on_key : {s : Server} (key : ℕ) (keys : Keys) → Step s (press key (keys, s)).1

-- The states from the start of the program on.
pub data Reached : Server → Type 0 where
  at_start : Reached make
  then_step : {s t : Server} → Reached s → Step s t → Reached t

module _ (s : Server) (v : IsServer s) where
  process_alarms-IsServer : (now : ℕ) (p : Protocol) → IsServer (process_alarms now p s).0
  unfolding process_alarms
  process_alarms-IsServer now p =
      or_else (λ (r : Server × List Call). IsServer r.0) _
        (or_else (λ (r : Server × List Call). IsServer r.0) _ (with_reports s v _ _ _) v) v

  change-IsServer :
      (members : List (BitField × ℕ)) → narrow members ≡ true → IsServer (change members s)
  unfolding change
  change-IsServer members e =
      with_status s v _
        (assign_all-IsStatus (readings s.first_run) members s.ac_status e v.has_status)

toggle_power-IsServer : (s : Server) → IsServer s → IsServer (toggle_power s)
unfolding toggle_power
toggle_power-IsServer s v =
    let ac_power = load (Packet.control Packet.ac_power) s.ac_status in
    change-IsServer s v ((Packet.control Packet.ac_power, if ac_power == 1 then 0 else 1) ∷ []) refl

-- An action that the state of the keys asks for.
if-Keeps :
    (b : Bool) (action : Server → Server)
    → ((s : Server) → IsServer s → IsServer (action s))
    → (s : Server) → IsServer s
    → IsServer (if b then action s else s)
if-Keeps b action k s v = or_else IsServer b (k s v) v

preloop-IsServer :
    (size_of_size_t rand now : ℕ) (p : Protocol) (keys : Keys) (s : Server)
    → IsServer s
    → IsServer (preloop size_of_size_t rand now p keys s).1
unfolding preloop toggle_power random_alarm
preloop-IsServer size_of_size_t rand now p keys s v =
    let toggle =
      if-Keeps keys.toggle_ac_power (unless_configuring toggle_power)
        (λ s v. if-Keeps (not s.config_mode) toggle_power toggle_power-IsServer s v) in
    let pair = if-Keeps keys.pairing (unless_configuring (change pairing_control)) (λ s v.
      if-Keeps (not s.config_mode) (change pairing_control)
        (λ s v. change-IsServer s v pairing_control refl) s v) in
    let alarm =
      if-Keeps keys.trigger_random_alarm (random_alarm rand) (λ s v. start_alarm-IsServer s v _) in
    let reset =
      if-Keeps keys.reset_alarm (reset_alarms size_of_size_t)
        (λ s v. reset_alarms-IsServer s v size_of_size_t) in
    process_alarms-IsServer _ (reset _ (alarm _ (pair _ (toggle s v)))) now p

press-IsServer :
    (key : ℕ) (keys : Keys) (s : Server) → IsServer s → IsServer (press key (keys, s)).1
unfolding press_server
press-IsServer key keys s v =
    or_else IsServer (key == b'3') (change-IsServer s v stop_cleaning refl) (
      or_else IsServer (key == b'4')
        (change-IsServer s v (inverted (Packet.control Packet.quiet_mode) s) refl)
        (or_else IsServer (key == b'5')
          (change-IsServer s v (inverted (Packet.control Packet.health_mode) s) refl) v))

Step-IsServer : {s t : Server} → Step s t → IsServer s → IsServer t
Step-IsServer (set_up now) v = set_up-IsServer _ v now
Step-IsServer (on_message h now type buffer b) v = run-Keeps _ v h now type buffer b
Step-IsServer (on_answer request_type type bytes) v = answer-Keeps _ v request_type type bytes
Step-IsServer (before_turn size_of_size_t rand now p keys) v =
    preloop-IsServer size_of_size_t rand now p keys _ v
Step-IsServer (on_key key keys) v = press-IsServer key keys _ v

-- In every state that the appliance reaches from the start of the program, by set-up, messages of bytes,
-- answers, turns and keys in any order: what lies behind the ten control bytes of the status is zeros
-- before the set-up and the readings of `init_ac_state` after it, whatever was commanded; no alarm is
-- on whose number is from `HON_ALARM_COUNT` to 63; the appliance is in configuration mode exactly where
-- the network status that it keeps is 3; and the status is 46 bytes and the mask 8 bytes.
pub Reached-IsServer : {s : Server} → Reached s → IsServer s
Reached-IsServer at_start = record {
  has_status = ((refl, All-replicate IsByte full_size 0 (omega arith)), refl);
  has_alarms = (refl, All-replicate IsByte alarm_buf_size 0 (omega arith));
  known = no_alarms-IsKnown;
  mode = refl;
}
Reached-IsServer (then_step r step) = Step-IsServer step (Reached-IsServer r)
