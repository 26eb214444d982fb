-- ===== src/Hon/Keeps.antt =====
-- tools/utils/hon_server.cpp: what every operation keeps of the appliance's state.
use native.Mathlib.Nat.{zero-div}
use haier_protocol.Prelude.{
  ℕ, zero, suc, ◌+◌, ◌-◌, ◌/◌, ◌%◌, ◌^◌, ◌≤◌, ◌<◌, ◌≡◌, refl, ap, get_or-set_self, get_or-set_ne,
  ==_iff, Bool-cases, inl, inr, if-both, ◌∙◌, Bool, not, ◌&&◌, List, get_or, set, replicate,
  store_at, arith, leb, ◌==◌, or_else, subst,
}
use haier_protocol.Bits.{load}
use haier_protocol.Bits.Fields.{IsPacket}
use haier_protocol.Hon.Packet.{control, alarm_buf_size, hon_alarm_count, set_point}
use haier_protocol.Hon.Server.{Server, start_alarm, reset_alarms}
use haier_protocol.Hon.Alarms.{alarm_bit, with_alarm-others}
use haier_protocol.Hon.Readings.{readings, IsStatus, set-IsPacket, assign-IsStatus}
use haier_protocol.Hon.Layout.{control-Fits}
use haier_protocol.Hon.Handlers.{leave_configuration, network_status}

-- No number without a message is on.
abbrev pub IsKnown : List ℕ → Type 0
IsKnown buf = (id : ℕ) → hon_alarm_count ≤ id → id < 64 → alarm_bit id buf ≡ 0

pub record IsServer (server : Server) : Type 0 where
  pub has_status : IsStatus (readings server.first_run) server.ac_status
  pub has_alarms : IsPacket alarm_buf_size server.alarm_status_buf
  pub known : IsKnown server.alarm_status_buf
  pub mode : server.config_mode ≡ (server.communication_status == 3)

-- A bit of a mask in which a byte is cleared.
clear-IsKnown :
    (buf : List ℕ) (i : ℕ) → IsPacket alarm_buf_size buf → IsKnown buf → IsKnown (set buf i 0)
clear-IsKnown buf i v k id h below =
    let at = alarm_buf_size - 1 - id / 8 in
    elim (Bool-cases (i == at)) [
      | inl e ↦
          let same : i ≡ at = (==_iff _ _).0 e in
          ap (λ j. get_or (set buf j 0) at 0 / 2 ^ (id % 8) % 2) same
          ∙ ap (λ b. b / 2 ^ (id % 8) % 2) (get_or-set_self buf at 0 0 (omega (arith, v.0)))
          ∙ ap (λ n. n % 2) (zero-div (2 ^ (id % 8)))
      | inr e ↦
          ap (λ b. b / 2 ^ (id % 8) % 2)
            (get_or-set_ne buf 0 0 (λ q. absurd (ground (arith, e, q))))
          ∙ k id h below
    ]

pub clear_all :
    (n i : ℕ) (buf : List ℕ)
    → IsPacket alarm_buf_size buf
    → IsKnown buf
    → IsPacket alarm_buf_size (store_at buf i (replicate n 0))
      × IsKnown (store_at buf i (replicate n 0))
unfolding store_at
clear_all zero i buf v k = (v, k)
clear_all (suc n) i buf v k =
    clear_all n (i + 1) (set buf i 0) (set-IsPacket alarm_buf_size buf i 0 (omega arith) v)
      (clear-IsKnown buf i v k)

module _ (server : Server) (v : IsServer server) where
  -- Another status.
  pub with_status :
      (status : List ℕ)
      → IsStatus (readings server.first_run) status
      → IsServer (record server { ac_status = status })
  with_status status h = record {
    has_status = h;
    has_alarms = v.has_alarms;
    known = v.known;
    mode = v.mode;
  }

  -- Other flags of the reports.
  pub with_reports :
      (last : ℕ) (paused stopped : Bool)
      → IsServer (record server {
        last_alarm_message = last;
        alarm_paused = paused;
        alarm_stopped = stopped;
      })
  with_reports last paused stopped = record {
    has_status = v.has_status;
    has_alarms = v.has_alarms;
    known = v.known;
    mode = v.mode;
  }

  pub start_alarm-IsServer : (id : ℕ) → IsServer (start_alarm id server).0
  unfolding start_alarm
  start_alarm-IsServer id =
      if-both {A = Server × Bool} (λ r. IsServer r.0) (leb hon_alarm_count id) (λ _. v)
        (λ exists. record {
          has_status = v.has_status;
          has_alarms =
              set-IsPacket alarm_buf_size server.alarm_status_buf _ _ (omega arith) v.has_alarms;
          known = λ other h below.
              with_alarm-others id server v.has_alarms other (ground (arith, exists)) below
                (λ same. absurd (ground (arith, exists, h, same)))
              ∙ v.known other h below;
          mode = v.mode;
        })

  pub reset_alarms-IsServer : (n : ℕ) → IsServer (reset_alarms n server)
  unfolding reset_alarms
  reset_alarms-IsServer n =
      let (has_alarms, known) = clear_all n 0 server.alarm_status_buf v.has_alarms v.known in
      record { has_status = v.has_status; has_alarms = has_alarms; known = known; mode = v.mode }

  -- With the network status that the mode was taken from.
  leave_configuration-IsServer :
      (st : ℕ)
      → IsServer (record (leave_configuration (record server { config_mode = st == 3 })) {
        communication_status = st;
      })
  unfolding leave_configuration
  leave_configuration-IsServer st =
      or_else (λ (left : Server). IsServer (record left { communication_status = st }))
        (not (st == 3) && load (control set_point) server.ac_status == 0x0e)
        (record {
          has_status =
              assign-IsStatus (readings server.first_run) (control set_point) 0x0d server.ac_status
                (control-Fits set_point) v.has_status;
          has_alarms = v.has_alarms;
          known = v.known;
          mode = refl;
        })
        (record {
          has_status = v.has_status;
          has_alarms = v.has_alarms;
          known = v.known;
          mode = refl;
        })

  pub network_status-IsServer : (st : ℕ) → IsServer (network_status st server)
  unfolding network_status
  network_status-IsServer st =
      let left : Server = leave_configuration (record server { config_mode = st == 3 }) in
      let kept = leave_configuration-IsServer st in
      if-both IsServer (not (st == left.communication_status)) (λ _. kept)
        (λ same.
          let same_status : st ≡ left.communication_status = ground (arith, same) in
          subst (λ c. IsServer (record left { communication_status = c })) same_status kept)

get_or-replicate : (n i : ℕ) → get_or (replicate {A = ℕ} n 0) i 0 ≡ 0
get_or-replicate zero i = refl
get_or-replicate (suc n) zero = refl
get_or-replicate (suc n) (suc i) = get_or-replicate n i

pub no_alarms-IsKnown : IsKnown (replicate alarm_buf_size 0)
no_alarms-IsKnown id h below =
    ap (λ b. b / 2 ^ (id % 8) % 2) (get_or-replicate alarm_buf_size (alarm_buf_size - 1 - id / 8))
    ∙ ap (λ n. n % 2) (zero-div (2 ^ (id % 8)))
