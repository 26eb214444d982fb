-- ===== src/Hon/Alarms.antt =====
-- tools/utils/hon_server.cpp: the alarm mask, and when it is reported.
use Prim.Native.Nat.{bit_or}
use native.Mathlib.Nat.{zero-div}
use haier_protocol.Prelude.{
  accepts_below, accepts_below_at, length-set, if-both, ==-false, ==-refl, ◌⊎◌, ℕ, zero, suc, ◌-◌,
  ◌/◌, ◌%◌, ◌^◌, ◌≤◌, ◌<◌, ◌≡◌, ◌≢◌, refl, sym, ap, ◌∙◌, Bool, true, false, not, List, [], ◌∷◌,
  length, get_or, set, get_or-set_self, get_or-set_ne, arith, leb, ◌==◌, ==_iff, if◌then◌else◌,
  Bool-cases, inl, inr, subst, u8, if_true, if_false,
}
use haier_protocol.Bits.Fields.{IsPacket, IsByte-get_or}
use haier_protocol.Hon.Packet.{alarm_buf_size, hon_alarm_count}
use haier_protocol.Hon.Server.{Server, has_alarm, has_active_alarms, start_alarm}

-- Whether the mask has the alarm: a bit of the bytes, which are in reverse order.
abbrev pub alarm_bit : ℕ → List ℕ → ℕ
alarm_bit id buf = get_or buf (alarm_buf_size - 1 - id / 8) 0 / 2 ^ (id % 8) % 2

-- A bit of a byte with one more bit.
abbrev raised : ℕ → ℕ → ℕ
raised byte k = u8 (bit_or byte (2 ^ k))

abbrev bit_right : ℕ → ℕ → ℕ → Bool
bit_right byte k j = raised byte k / 2 ^ j % 2 == (if j == k then 1 else byte / 2 ^ j % 2)

abbrev bits_right : ℕ → ℕ → Bool
bits_right byte k = accepts_below (bit_right byte k) 8

abbrev byte_right : ℕ → Bool
byte_right byte = accepts_below (bits_right byte) 8

bytes_right : accepts_below byte_right 256 ≡ true
unfolding accepts_below
bytes_right = refl

raised-bit :
    (byte k j : ℕ)
    → byte < 256
    → k < 8
    → j < 8
    → raised byte k / 2 ^ j % 2 ≡ (if j == k then 1 else byte / 2 ^ j % 2)
raised-bit byte k j b p q =
    let at_byte = accepts_below_at byte_right b bytes_right in
    let at_k = accepts_below_at (bits_right byte) p at_byte in
    (==_iff _ _).0 (accepts_below_at (bit_right byte k) q at_k)

-- A byte with a bit is not zero.
has_alarm-bit : (buf : List ℕ) (i j : ℕ) → get_or buf i 0 / 2 ^ j % 2 ≡ 1 → has_alarm buf ≡ true
has_alarm-bit [] i j h = absurd (omega (arith, h, ap (λ n. n % 2) (zero-div (2 ^ j))))
has_alarm-bit (b ∷ rest) zero j h =
    if-both (λ c. c ≡ true) (not (b == 0)) (λ e. refl) (λ e. absurd (no_bit (ground (arith, e))))
  where
    no_bit : b ≡ 0 → ⊥
    no_bit z = omega (arith, h, ap (λ n. n / 2 ^ j % 2) z, ap (λ n. n % 2) (zero-div (2 ^ j)))
has_alarm-bit (b ∷ rest) (suc i) j h =
    if-both (λ c. c ≡ true) (not (b == 0)) (λ e. refl) (λ e. has_alarm-bit rest i j h)

-- The alarm is on, the other bits of the mask are as before, and reports are on.
pub record Raised (id : ℕ) (before after : Server) : Type 0 where
  pub raised : alarm_bit id after.alarm_status_buf ≡ 1
  pub others :
      (other : ℕ)
      → other < 64
      → other ≢ id
      → alarm_bit other after.alarm_status_buf ≡ alarm_bit other before.alarm_status_buf
  pub size : length after.alarm_status_buf ≡ length before.alarm_status_buf
  pub active : has_active_alarms after ≡ true
  pub rest : after ≡ record before {
    alarm_status_buf = after.alarm_status_buf;
    alarm_paused = false;
    alarm_stopped = false;
  }

module _ (id : ℕ) (server : Server) (v : IsPacket alarm_buf_size server.alarm_status_buf) where
  abbrev buf : List ℕ
  buf = server.alarm_status_buf

  abbrev at : ℕ
  at = alarm_buf_size - 1 - id / 8

  abbrev with_alarm : List ℕ
  with_alarm = set buf at (raised (get_or buf at 0) (id % 8))

  with_alarm-bit :
      (other : ℕ)
      → alarm_buf_size - 1 - other / 8 ≡ at
      → alarm_bit other with_alarm
        ≡ (if other % 8 == id % 8 then 1 else get_or buf at 0 / 2 ^ (other % 8) % 2)
  with_alarm-bit other e =
      ap (λ i. get_or with_alarm i 0 / 2 ^ (other % 8) % 2) e
      ∙ (ap (λ b. b / 2 ^ (other % 8) % 2)
            (get_or-set_self buf at (raised (get_or buf at 0) (id % 8)) 0 (omega (arith, v.0)))
          ∙ raised-bit (get_or buf at 0) (id % 8) (other % 8) (IsByte-get_or buf at v.1)
              (omega arith) (omega arith))

  pub with_alarm-others :
      (other : ℕ)
      → id < 64
      → other < 64
      → other ≢ id
      → alarm_bit other with_alarm ≡ alarm_bit other buf
  with_alarm-others other h k ne = elim (Bool-cases (alarm_buf_size - 1 - other / 8 == at)) [
    | inl e ↦
        let same : alarm_buf_size - 1 - other / 8 ≡ at = (==_iff _ _).0 e in
        with_alarm-bit other same
        ∙ (if_false _ _ (==-false (other % 8) (id % 8) (λ q. ne (omega (arith, q, same))))
            ∙ ap (λ i. get_or buf i 0 / 2 ^ (other % 8) % 2) (sym same))
    | inr e ↦
        ap (λ b. b / 2 ^ (other % 8) % 2)
          (get_or-set_ne buf (raised (get_or buf at 0) (id % 8)) 0
            (λ q. absurd (ground (arith, e, q))))
  ]

  with_alarm-raised : alarm_bit id with_alarm ≡ 1
  with_alarm-raised = with_alarm-bit id refl ∙ if_true _ _ (==-refl (id % 8))

  -- On an alarm mask of eight bytes. An alarm below `HON_ALARM_COUNT` is switched on: its bit is set, no
  -- other bit of the mask changes, there are active alarms, reports are neither stopped nor paused, and
  -- the rest of the appliance is as before. Any other number is refused and changes nothing.
  pub start_alarm_lem :
      ((id < hon_alarm_count)
        × ((start_alarm id server).1 ≡ true)
        × Raised id server (start_alarm id server).0)
      ⊎ ((hon_alarm_count ≤ id) × (start_alarm id server ≡ (server, false)))
  unfolding start_alarm
  start_alarm_lem = elim (Bool-cases (leb hon_alarm_count id)) [
    | inl e ↦ inr (ground (arith, e), if_true _ _ e)
    | inr e ↦
        let below : id < hon_alarm_count = ground (arith, e) in
        inl (
          below,
          ap (λ (r : Server × Bool). r.1) (if_false _ _ e),
          subst (λ (r : Server × Bool). Raised id server r.0) (sym (if_false _ _ e))
              (record {
                raised = with_alarm-raised;
                others = λ other h ne. with_alarm-others other (omega arith) h ne;
                size = length-set buf at (raised (get_or buf at 0) (id % 8));
                active = has_alarm-bit with_alarm at (id % 8) with_alarm-raised;
                rest = refl;
              }),
        )
  ]
