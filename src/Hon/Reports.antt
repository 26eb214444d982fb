-- ===== src/Hon/Reports.antt =====
-- tools/utils/hon_server.cpp: an alarm from its start to its end.
use haier_protocol.Prelude.{
  store_at_start, replicate, ◌++◌, drop_all, subst, ℕ, ◌+◌, ◌-◌, ◌≤◌, ◌<◌, ◌≡◌, refl, sym, ap, ◌∙◌,
  Bool, true, false, not, ◌&&◌, ◌||◌, List, [], ◌∷◌, length, arith, ltb, ◌==◌, if◌then◌else◌,
  if_true, if_false, if-both, inl, inr,
}
use haier_protocol.Frame.Kinds.{code, alarm_status, confirm}
use haier_protocol.Protocol.State.{
  Protocol, idle, is_waiting, is_waiting_for_answer, get_outgoing_queue_size, Call, send_message,
}
use haier_protocol.Bits.Fields.{IsPacket}
use haier_protocol.Hon.Packet.{alarm_buf_size, hon_alarm_count}
use haier_protocol.Hon.Server.{
  Server, process_alarms, start_alarm, reset_alarms, alarm_report, has_alarm, has_active_alarms,
  short_alarm_report_interval_ms, long_alarm_report_interval_ms,
}
use haier_protocol.Hon.Alarms.{start_alarm_lem}
use haier_protocol.Hon.Handlers.{alarm_status_report_answer_handler}

-- The protocol handler waits for no answer and has nothing to send.
abbrev pub IsIdle : Protocol → Type 0
IsIdle p = (p.state ≡ idle) × (p.outgoing_messages ≡ [])

abbrev pub report : Server → List Call
report server = send_message (alarm_report server.alarm_status_buf) true 0 0 ∷ []

abbrev pub reported : ℕ → Server → Server
reported now server = record server { alarm_paused = false; last_alarm_message = now }

abbrev pub interval : Bool → ℕ
interval paused = if paused then long_alarm_report_interval_ms else short_alarm_report_interval_ms

module _ (now : ℕ) (p : Protocol) (server : Server) where
  abbrev may_report : Bool
  may_report =
      not server.alarm_stopped && not (is_waiting_for_answer p) && get_outgoing_queue_size p == 0

  abbrev is_due : Bool
  is_due =
      server.alarm_paused && ltb long_alarm_report_interval_ms (now - server.last_alarm_message)
      || not server.alarm_paused
        && ltb short_alarm_report_interval_ms (now - server.last_alarm_message)

  idle_may_report : IsIdle p → server.alarm_stopped ≡ false → may_report ≡ true
  idle_may_report h running = ground (arith, running, ap is_waiting h.0, ap (λ l. length l) h.1)

  pub process_alarms-due :
      IsIdle p
      → server.alarm_stopped ≡ false
      → interval server.alarm_paused < now - server.last_alarm_message
      → process_alarms now p server ≡ (reported now server, report server)
  unfolding process_alarms
  process_alarms-due h running due =
      if_true _ _ (idle_may_report h running) ∙ if_true {b = is_due} _ _ (ground (arith, due))

  pub process_alarms-early :
      now - server.last_alarm_message ≤ interval server.alarm_paused
      → process_alarms now p server ≡ (server, [])
  unfolding process_alarms
  process_alarms-early early =
      if-both {A = Server × List Call} (λ r. r ≡ (server, [])) may_report
        (λ _. if_false {b = is_due} _ _ (ground (arith, early))) (λ _. refl)

  pub process_alarms-stopped :
      server.alarm_stopped ≡ true → process_alarms now p server ≡ (server, [])
  unfolding process_alarms
  process_alarms-stopped e = if_false {b = may_report} _ _ (ground (arith, e))

-- The answer CONFIRM to a report.
abbrev pub confirmed : Server → Server
confirmed server =
    (alarm_status_report_answer_handler (code alarm_status) (code confirm) [] server).0

confirmed_active :
    (server : Server)
    → has_active_alarms server ≡ true
    → confirmed server ≡ record server { alarm_paused = true }
unfolding alarm_status_report_answer_handler
confirmed_active server e = if_false _ _ (ap not e)

confirmed_quiet :
    (server : Server)
    → has_active_alarms server ≡ false
    → confirmed server ≡ record server { alarm_stopped = true }
unfolding alarm_status_report_answer_handler
confirmed_quiet server e = if_true _ _ (ap not e)

-- `reset_alarms` where a `size_t` has the eight bytes of the mask.
reset_alarms-quiet :
    (server : Server)
    → length server.alarm_status_buf ≡ alarm_buf_size
    → has_active_alarms (reset_alarms 8 server) ≡ false
unfolding reset_alarms
reset_alarms-quiet server h = ap has_alarm (
    store_at_start server.alarm_status_buf (replicate 8 0) (omega (arith, h))
    ∙ ap (λ l. replicate 8 0 ++ l) (drop_all 8 server.alarm_status_buf (omega (arith, h))))

-- What the alarm reports of an appliance are after an alarm was started and reported at `now`.
pub record Cycle (now : ℕ) (p : Protocol) (started : Server) : Type 0 where
  pub first : (process_alarms now p started).1 ≡ report started
  pub pause :
      (later : ℕ) (q : Protocol)
      → later ≤ now + long_alarm_report_interval_ms
      → let paused = confirmed (process_alarms now p started).0 in
        process_alarms later q paused ≡ (paused, [])
  pub again :
      (later : ℕ) (q : Protocol)
      → IsIdle q
      → now + long_alarm_report_interval_ms < later
      → (process_alarms later q (confirmed (process_alarms now p started).0)).1 ≡ report started
  pub over :
      (later : ℕ) (q : Protocol)
      → let quiet = confirmed (reset_alarms 8 (process_alarms now p started).0) in
        process_alarms later q quiet ≡ (quiet, [])

-- The same from a server with an active alarm that is not stopped or paused.
reported-Cycle :
    (now : ℕ) (p : Protocol) (started : Server)
    → length started.alarm_status_buf ≡ alarm_buf_size
    → has_active_alarms started ≡ true
    → IsIdle p
    → started.alarm_stopped ≡ false
    → started.alarm_paused ≡ false
    → started.last_alarm_message + short_alarm_report_interval_ms < now
    → Cycle now p started
reported-Cycle now p started size active h running unpaused due = record {
  first = ap (λ (r : Server × List Call). r.1) sends;
  pause = λ later q k.
      subst (λ s. process_alarms later q s ≡ (s, [])) (sym paused)
        (process_alarms-early later q waiting (omega arith));
  again = λ later q i k.
      ap (λ s. (process_alarms later q s).1) paused
      ∙ ap (λ (r : Server × List Call). r.1)
          (process_alarms-due later q waiting i running (omega arith));
  over = λ later q. process_alarms-stopped later q _ (
      ap (λ s. (confirmed (reset_alarms 8 s)).alarm_stopped)
        (ap (λ (r : Server × List Call). r.0) sends)
      ∙ ap (λ (s : Server). s.alarm_stopped)
          (confirmed_quiet (reset_alarms 8 (reported now started))
            (reset_alarms-quiet (reported now started) size)));
}
  where
    sends : process_alarms now p started ≡ (reported now started, report started)
    sends =
        process_alarms-due now p started h running
          (subst (λ b. interval b < now - started.last_alarm_message) (sym unpaused) (omega arith))

    waiting : Server
    waiting = record started { alarm_paused = true; last_alarm_message = now }

    paused : confirmed (process_alarms now p started).0 ≡ waiting
    paused =
        ap (λ (r : Server × List Call). confirmed r.0) sends
        ∙ confirmed_active (reported now started) active

-- An alarm below `HON_ALARM_COUNT` is started on an appliance whose mask has eight bytes, and more than
-- 300 ms after the last report `process_alarms` is called while the protocol handler is idle: it sends
-- a report with the mask. After the answer CONFIRM it sends nothing until 5000 ms have passed, and then,
-- as soon as the handler is idle, the same report again. Where the alarms are reset, with a `size_t` of
-- eight bytes, and CONFIRM arrives, it never sends anything.
pub start_alarm-Cycle :
    (id now : ℕ) (p : Protocol) (server : Server)
    → IsPacket alarm_buf_size server.alarm_status_buf
    → id < hon_alarm_count
    → IsIdle p
    → server.last_alarm_message + short_alarm_report_interval_ms < now
    → Cycle now p (start_alarm id server).0
start_alarm-Cycle id now p server v below h due = elim (start_alarm_lem id server v) [
  | inr refusal ↦ absurd (omega (arith, refusal.0))
  | inl (_, _, r) ↦
      reported-Cycle now p (start_alarm id server).0 (r.size ∙ v.0) r.active h
        (ap (λ (s : Server). s.alarm_stopped) r.rest) (ap (λ (s : Server). s.alarm_paused) r.rest)
        (omega (arith, due, ap (λ (s : Server). s.last_alarm_message) r.rest))
]
