-- ===== src/Hon/Readings.antt =====
-- tools/utils/hon_server.cpp: what an assignment to the control bytes keeps of the status.
use haier_protocol.Prelude.{
  ℕ, zero, suc, ◌+◌, ◌-◌, ◌≤◌, ◌<◌, ◌≡◌, refl, drop, sym, ◌∙◌, Bool, true, false, ◌&&◌, List, [],
  ◌∷◌, get_or, set, length-set, replicate, All, IsByte, arith, leb, ltb, ◌==◌, or_else, Option,
  none, some, subst,
}
use haier_protocol.Bits.{BitField, load, assign, assign_all}
use haier_protocol.Bits.Fields.{Fits, IsPacket, assign-IsPacket, All-set, IsByte-get_or}
use haier_protocol.Protocol.State.{HandlerError}
use haier_protocol.Hon.Packet.{Control, control, control_size, full_size}
use haier_protocol.Hon.Server.{initial_status}
use haier_protocol.Hon.Parameters.{set_if_different, single_parameter}
use haier_protocol.Hon.Members.{member, store_member, single_parameter-member}
use haier_protocol.Hon.Layout.{control-Fits}
use haier_protocol.Hon.Handlers.{set_group}

-- What lies behind the control bytes: zeros until the appliance is set up, then the readings of
-- `init_ac_state`.
abbrev pub readings : Bool → List ℕ
readings true = replicate (full_size - control_size) 0
readings false = drop control_size initial_status

-- A status of bytes with these readings.
abbrev pub IsStatus : List ℕ → List ℕ → Type 0
IsStatus rest status = IsPacket full_size status × (drop control_size status ≡ rest)

-- Members that lie in a control byte, and bytes, as tests.
abbrev pub narrow : List (BitField × ℕ) → Bool
narrow [] = true
narrow ((f, v) ∷ rest) = leb (f.shift + f.width) 8 && ltb f.position control_size && narrow rest

abbrev pub byte_list : List ℕ → Bool
byte_list [] = true
byte_list (b ∷ rest) = ltb b 256 && byte_list rest

pub byte_list-All : (l : List ℕ) → byte_list l ≡ true → All IsByte l
byte_list-All [] e = tt
byte_list-All (b ∷ rest) e = (ground (arith, e), byte_list-All rest (ground (arith, e)))

pub set-IsPacket :
    (size : ℕ) (packet : List ℕ) (i b : ℕ)
    → IsByte b
    → IsPacket size packet
    → IsPacket size (set packet i b)
set-IsPacket size packet i b h v = (length-set packet i b ∙ v.0, All-set packet i b v.1 h)

-- What lies behind is not changed.
drop-set : (n : ℕ) (packet : List ℕ) (i b : ℕ) → i < n → drop n (set packet i b) ≡ drop n packet
drop-set zero packet i b h = absurd (omega (arith, h))
drop-set (suc n) [] i b h = refl
drop-set (suc n) (x ∷ xs) zero b h = refl
drop-set (suc n) (x ∷ xs) (suc i) b h = drop-set n xs i b (omega (arith, h))

module _ (rest : List ℕ) where
  set-IsStatus :
      (status : List ℕ) (i b : ℕ)
      → i < control_size
      → IsByte b
      → IsStatus rest status
      → IsStatus rest (set status i b)
  set-IsStatus status i b h w v =
      (set-IsPacket full_size status i b w v.0, drop-set control_size status i b h ∙ v.1)

  pub assign-IsStatus :
      (f : BitField) (value : ℕ) (status : List ℕ)
      → Fits control_size f
      → IsStatus rest status
      → IsStatus rest (assign f value status)
  unfolding assign
  assign-IsStatus f value status w v = (
    assign-IsPacket full_size f value status w.1 v.0,
    drop-set control_size status f.position _ w.0 ∙ v.1,
  )

  pub assign_all-IsStatus :
      (members : List (BitField × ℕ)) (status : List ℕ)
      → narrow members ≡ true
      → IsStatus rest status
      → IsStatus rest (assign_all members status)
  unfolding assign_all
  assign_all-IsStatus [] status e v = v
  assign_all-IsStatus ((f, value) ∷ others) status e v =
      assign_all-IsStatus others (assign f value status) (ground (arith, e))
        (assign-IsStatus f value status (ground (arith, e), ground (arith, e)) v)

  pub set_group-IsStatus :
      (n i : ℕ) (buffer status : List ℕ)
      → i + n ≤ control_size
      → All IsByte buffer
      → IsStatus rest status
      → IsStatus rest (set_group n i buffer status)
  unfolding set_group
  set_group-IsStatus zero i buffer status le h v = v
  set_group-IsStatus (suc n) i buffer status le h v =
      let byte = get_or buffer (2 + i) 0 in
      set_group-IsStatus n (suc i) buffer _ (omega (arith, le)) h (
        or_else (IsStatus rest) (get_or status i 0 == byte) v
          (set-IsStatus status i byte (omega (arith, le)) (IsByte-get_or buffer (2 + i) h) v))

  stored-IsStatus :
      (c : Control) (value : ℕ) (status : List ℕ)
      → IsStatus rest status
      → IsStatus rest (set_if_different (control c) value status)
  unfolding set_if_different
  stored-IsStatus c value status v =
      or_else (IsStatus rest) (load (control c) status == value) v
        (assign-IsStatus (control c) value status (control-Fits c) v)

  store_member-IsStatus :
      (m : Option (Control × Bool)) (value : ℕ) (status : List ℕ)
      → IsStatus rest status
      → IsStatus rest (store_member m value status).0
  store_member-IsStatus none value status v = v
  store_member-IsStatus (some (c, true)) value status v =
      or_else (λ (r : List ℕ × HandlerError). IsStatus rest r.0) (leb value 1)
        (stored-IsStatus c value status v) v
  store_member-IsStatus (some (c, false)) value status v = stored-IsStatus c value status v

  pub single_parameter-IsStatus :
      (parameter value : ℕ) (status : List ℕ)
      → IsStatus rest status
      → IsStatus rest (single_parameter parameter value status).0
  single_parameter-IsStatus parameter value status v =
      subst (λ (r : List ℕ × HandlerError). IsStatus rest r.0)
        (sym (single_parameter-member parameter value status))
        (store_member-IsStatus (member parameter) value status v)

pub initial_status-IsStatus : IsStatus (readings false) initial_status
unfolding initial_status
initial_status-IsStatus = ((refl, byte_list-All initial_status refl), refl)
