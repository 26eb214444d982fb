-- ===== src/SmartAir2/Status.antt =====
-- tools/utils/smartair2_server.cpp, `status_request_handler`: switching the power, setting a group of
-- parameters, and the answers.
use haier_protocol.Prelude.{
  subst, ℕ, zero, suc, ◌+◌, ◌-◌, ◌≤◌, ◌<◌, ◌≡◌, ◌≢◌, refl, sym, ap, ◌∙◌, inl, inr, Bool, true,
  false, not, ◌&&◌, ◌||◌, List, [], ◌∷◌, length, take, get_or, set, length-set, get_or-set_self,
  get_or-set_ne, arith, ltb, ◌==◌, if◌then◌else◌, if-both, or_else, if_true, if_false, Bool-cases,
}
use haier_protocol.Bits.{BitField, load, assign}
use haier_protocol.Bits.Fields.{Apart, load-assign, load-assign-Apart}
use haier_protocol.Frame.Kinds.{code, invalid, report_network_status}
use haier_protocol.Frame.Kinds
use haier_protocol.Message.{HaierMessage}
use haier_protocol.Message
use haier_protocol.Protocol.State.{send_answer, handler_ok}
use haier_protocol.SmartAir2.Packet.{control, control_size}
use haier_protocol.SmartAir2.Packet
use haier_protocol.SmartAir2.Server.{
  Handled, status_message, answer_status, is_own, set_group, process_subcommand,
  status_request_handler,
}

-- The answer with the whole status.
abbrev pub status_bytes : ℕ → List ℕ → HaierMessage
status_bytes subcommand ac_status = record {
  frame_type = code Kinds.status;
  subcommand = subcommand;
  data_size = control_size;
  bytes = take control_size ac_status;
}

abbrev pub answered : ℕ → ℕ → List ℕ → Handled
answered now subcommand ac_status =
    (ac_status, send_answer now (status_bytes subcommand ac_status) ∷ [], handler_ok)

-- `ac_power` is as given, and every member that shares no digit with it reads as before.
abbrev pub Switched : ℕ → List ℕ → List ℕ → Type 0
Switched power before after =
    (load (control Packet.ac_power) after ≡ power)
    × ((g : BitField) → Apart (control Packet.ac_power) g → load g after ≡ load g before)

switched :
    (power : ℕ) (before : List ℕ)
    → control_size ≤ length before
    → power < 2
    → Switched power before (assign (control Packet.ac_power) power before)
switched power before h small = (
  load-assign (control Packet.ac_power) power before (omega arith) ∙ omega arith,
  λ g a. load-assign-Apart (control Packet.ac_power) g power before (omega arith) a,
)

abbrev pub power_command : Bool → List ℕ
power_command on = 0x4d ∷ (if on then 0x02 else 0x03) ∷ []

-- The commands 4D 02 and 4D 03 on a status of at least 24 bytes: `ac_power` is 1 or 0 afterwards, every
-- bit-field that shares no digit with it reads as before, the answer has the new status, and so has the
-- answer to the query 4D 01 that follows, which changes nothing.
pub power_command-query :
    (now later : ℕ) (on : Bool) (before : List ℕ)
    → control_size ≤ length before
    → let after = (status_request_handler now (code Kinds.control) (power_command on) before).0 in
      Switched (if on then 1 else 0) before after
      × (status_request_handler now (code Kinds.control) (power_command on) before
          ≡ answered now (if on then 0x6d02 else 0x6d03) after)
      × (status_request_handler later (code Kinds.control) (0x4d ∷ 0x01 ∷ []) after
          ≡ answered later 0x6d01 after)
unfolding status_request_handler status_message Message.make
power_command-query now later true before h = (switched 1 before h (omega arith), refl, refl)
power_command-query now later false before h = (switched 0 before h (omega arith), refl, refl)

-- What one round of the loop makes of the byte at `i`.
abbrev next_status : ℕ → ℕ → List ℕ → List ℕ
next_status i byte l = if is_own i then l else (if get_or l i 0 == byte then l else set l i byte)

next_status-length : (i byte : ℕ) (l : List ℕ) → length (next_status i byte l) ≡ length l
next_status-length i byte l =
    or_else (λ m. length m ≡ length l) (is_own i) refl
      (or_else (λ m. length m ≡ length l) (get_or l i 0 == byte) refl (length-set l i byte))

next_status-ne :
    (i byte j : ℕ) (l : List ℕ) → i ≢ j → get_or (next_status i byte l) j 0 ≡ get_or l j 0
next_status-ne i byte j l ne =
    or_else (λ m. get_or m j 0 ≡ get_or l j 0) (is_own i) refl
      (or_else (λ m. get_or m j 0 ≡ get_or l j 0) (get_or l i 0 == byte) refl
        (get_or-set_ne l byte 0 ne))

next_status_self :
    (i byte : ℕ) (l : List ℕ)
    → i < length l
    → get_or (next_status i byte l) i 0 ≡ (if is_own i then get_or l i 0 else byte)
next_status_self i byte l h = elim (Bool-cases (is_own i)) [
  | inl e ↦ ap (λ m. get_or m i 0) (if_true _ _ e) ∙ sym (if_true _ _ e)
  | inr e ↦
      ap (λ m. get_or m i 0) (if_false _ _ e)
      ∙ (if-both (λ m. get_or m i 0 ≡ byte) (get_or l i 0 == byte) (λ q. ground (arith, q))
            (λ q. get_or-set_self l i byte 0 h)
          ∙ sym (if_false _ _ e))
]

set_group-length : (n i : ℕ) (buffer l : List ℕ) → length (set_group n i buffer l) ≡ length l
unfolding set_group
set_group-length zero i buffer l = refl
set_group-length (suc n) i buffer l =
    set_group-length n (suc i) buffer _ ∙ next_status-length i (get_or buffer (2 + i) 0) l

-- The loop leaves the bytes before it.
set_group-before :
    (n i j : ℕ) (buffer l : List ℕ) → j < i → get_or (set_group n i buffer l) j 0 ≡ get_or l j 0
unfolding set_group
set_group-before zero i j buffer l h = refl
set_group-before (suc n) i j buffer l h =
    set_group-before n (suc i) j buffer _ (omega arith)
    ∙ next_status-ne i (get_or buffer (2 + i) 0) j l (λ e. absurd (omega (arith, e)))

set_group-at :
    (n i j : ℕ) (buffer l : List ℕ)
    → i ≤ j
    → j < i + n
    → j < length l
    → get_or (set_group n i buffer l) j 0
      ≡ (if is_own j then get_or l j 0 else get_or buffer (2 + j) 0)
unfolding set_group
set_group-at zero i j buffer l h k m = absurd (omega arith)
set_group-at (suc n) i j buffer l h k m =
    let next = next_status i (get_or buffer (2 + i) 0) l in
    elim (Bool-cases (i == j)) [
      | inl e ↦
          let same : i ≡ j = ground (arith, e) in
          subst
            (λ k.
              get_or (set_group n (suc i) buffer next) k 0
              ≡ (if is_own k then get_or l k 0 else get_or buffer (2 + k) 0))
            same
            (set_group-before n (suc i) i buffer next (omega arith)
              ∙ next_status_self i (get_or buffer (2 + i) 0) l (omega (arith, same)))
      | inr e ↦
          let other : i ≢ j = λ q. absurd (ground (arith, e, q)) in
          set_group-at n (suc i) j buffer next (ground (arith, e, h)) (omega arith)
            (omega (arith, next_status-length i (get_or buffer (2 + i) 0) l))
          ∙ ap (λ b. if is_own j then b else get_or buffer (2 + j) 0)
              (next_status-ne i (get_or buffer (2 + i) 0) j l other)
    ]

module _ (now : ℕ) (group before : List ℕ) (h : length group ≡ control_size) where
  abbrev buffer : List ℕ
  buffer = 0x4d ∷ 0x5f ∷ group

  abbrev size : ℕ
  size = length buffer

  -- The tests in their order: the size is 26.
  process_group :
      process_subcommand now buffer before
      ≡ answer_status now 0x6d5f (set_group control_size 0 buffer before)
  unfolding process_subcommand
  process_group =
      if_false {b = size == 2 && 0x4d == 0x4d && 0x5f == 0x01} _ _ (ground (arith, h))
      ∙ (if_false {b = size == 2 && 0x4d == 0x4d && 0x5f == 0x02} _ _ (ground (arith, h))
          ∙ (if_false {b = size == 2 && 0x4d == 0x4d && 0x5f == 0x03} _ _ (ground (arith, h))
              ∙ (if_true {b = ltb 2 size && 0x4d == 0x4d && 0x5f == 0x5f} _ _ (ground (arith, h))
                  ∙ if_false {b = not (size - 2 == control_size)} _ _ (ground (arith, h)))))

-- The command 4D 5F with 24 bytes, on a status of 24 bytes: the status has 24 bytes afterwards, where the
-- bytes 1, 3 and 5 (room temperature, room humidity and `cntrl`) are as before and every other byte
-- is the one given, and the answer has the new status.
pub set_group_command :
    (now : ℕ) (group before : List ℕ)
    → length group ≡ control_size
    → length before ≡ control_size
    → let after =
        (status_request_handler now (code Kinds.control) (0x4d ∷ 0x5f ∷ group) before).0 in
      (length after ≡ control_size)
      × ((i : ℕ)
          → i < control_size
          → get_or after i 0
            ≡ (if i == 1 || i == 3 || i == 5 then get_or before i 0 else get_or group i 0))
      × (status_request_handler now (code Kinds.control) (0x4d ∷ 0x5f ∷ group) before
          ≡ answered now 0x6d5f after)
unfolding status_request_handler status_message Message.make
set_group_command now group before h k =
    let after = set_group control_size 0 (0x4d ∷ 0x5f ∷ group) before in
    let run = process_group now group before h in
    let status_is = ap (λ (r : Handled). r.0) run in
    (
      ap (λ l. length l) status_is
          ∙ (set_group-length control_size 0 (0x4d ∷ 0x5f ∷ group) before ∙ k),
      λ i small.
          ap (λ l. get_or l i 0) status_is
          ∙ (set_group-at control_size 0 i (0x4d ∷ 0x5f ∷ group) before (omega arith) (omega arith)
                (omega (arith, k))
              ∙ (ap (λ j. if is_own i then get_or before i 0 else get_or (0x4d ∷ 0x5f ∷ group) j 0)
                    {x = 2 + i} {y = suc (suc i)} (omega arith)
                  ∙ own_order i (get_or before i 0) (get_or group i 0))),
      run ∙ ap (answered now 0x6d5f) (sym status_is),
    )
  where
    own_order :
        (i a b : ℕ) → (if is_own i then a else b) ≡ (if i == 1 || i == 3 || i == 5 then a else b)
    own_order i a b = ground arith
