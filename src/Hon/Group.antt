-- ===== src/Hon/Group.antt =====
-- tools/utils/hon_server.cpp: SET_GROUP_PARAMETERS, and the status that is sent afterwards.
use haier_protocol.Prelude.{
  if_false, ltb-false, not, take_all, store_at, store_at_start, ℕ, zero, suc, ◌+◌, ◌-◌, ◌≤◌, ◌<◌,
  ◌≡◌, refl, sym, ap, ◌∙◌, true, List, [], ◌∷◌, ◌++◌, length, take, drop, get_or, set, arith, ◌==◌,
  if◌then◌else◌, if-both,
}
use haier_protocol.Message.{HaierMessage}
use haier_protocol.Message
use haier_protocol.Frame.Kinds.{code}
use haier_protocol.Frame.Kinds
use haier_protocol.Protocol.State.{send_answer, handler_ok}
use haier_protocol.Hon.Packet.{control_size, user_data_size, full_size}
use haier_protocol.Hon.Server.{Server}
use haier_protocol.Hon.Parameters.{Handled, status_message}
use haier_protocol.Hon.Handlers.{answer_status, set_group, status_request_handler}

-- One step of the loop writes the byte, whether it differs or not.
write_byte :
    (status : List ℕ) (i byte : ℕ)
    → (if get_or status i 0 == byte then status else set status i byte) ≡ set status i byte
write_byte status i byte =
    if-both (λ l. l ≡ set status i byte) (get_or status i 0 == byte)
      (λ e. set_same status i byte (ground (arith, e))) (λ e. refl)
  where
    set_same : (l : List ℕ) (i b : ℕ) → get_or l i 0 ≡ b → l ≡ set l i b
    set_same [] i b e = refl
    set_same (x ∷ xs) zero b e = ap (λ y. y ∷ xs) e
    set_same (x ∷ xs) (suc i) b e = ap (λ l. x ∷ l) (set_same xs i b e)

drop-get_or : (l : List ℕ) (i : ℕ) → i < length l → drop i l ≡ get_or l i 0 ∷ drop (suc i) l
drop-get_or [] i h = absurd (omega arith)
drop-get_or (x ∷ xs) zero h = refl
drop-get_or (x ∷ xs) (suc i) h = drop-get_or xs i (omega arith)

-- The loop stores the buffer's bytes from `i` on.
pub set_group-store_at :
    (n i : ℕ) (buffer status : List ℕ)
    → 2 + (i + n) ≤ length buffer
    → set_group n i buffer status ≡ store_at status i (take n (drop (2 + i) buffer))
unfolding set_group store_at
set_group-store_at zero i buffer status h = refl
set_group-store_at (suc n) i buffer status h =
    ap (set_group n (suc i) buffer) (write_byte status i (get_or buffer (2 + i) 0))
    ∙ (set_group-store_at n (suc i) buffer (set status i (get_or buffer (2 + i) 0)) (omega arith)
        ∙ (ap
              (λ j.
                store_at (set status i (get_or buffer (2 + i) 0)) j
                  (take n (drop (2 + suc i) buffer)))
              {y = i + 1} (omega arith)
            ∙ ap (λ l. store_at status i (take (suc n) l))
                (sym (
                  drop-get_or buffer (2 + i) (omega arith)
                  ∙ ap (λ j. get_or buffer (2 + i) 0 ∷ drop j buffer) {x = suc (2 + i)}
                      {y = 2 + suc i} (omega arith)))))

-- a message with the first bytes of a status
abbrev pub status_bytes : ℕ → ℕ → List ℕ → HaierMessage
status_bytes subcommand size ac_status = record {
  frame_type = code Kinds.status;
  subcommand = subcommand;
  data_size = size;
  bytes = take size ac_status;
}

-- The status after ten control bytes were set.
abbrev pub with_control : List ℕ → Server → Server
with_control group server = record server {
  ac_status = group ++ drop control_size server.ac_status;
}

module _ (group : List ℕ) (server : Server) where
  set_group_lem :
      length group ≡ control_size
      → control_size ≤ length server.ac_status
      → set_group control_size 0 (0x60 ∷ 0x01 ∷ group) server.ac_status
        ≡ group ++ drop control_size server.ac_status
  set_group_lem h k =
      set_group-store_at control_size 0 (0x60 ∷ 0x01 ∷ group) server.ac_status (omega (arith, h))
      ∙ (ap (store_at server.ac_status 0) (take_all control_size group (omega arith))
          ∙ (store_at_start server.ac_status group (omega arith)
              ∙ ap (λ n. group ++ drop n server.ac_status) h))

  -- SET_GROUP_PARAMETERS with ten bytes, on an appliance with a status of at least ten bytes: the ten
  -- bytes become the control bytes, nothing else of the appliance changes, and the answer has the
  -- status in its new form. GET_USER_DATA afterwards is answered with the first 32 bytes of that
  -- status, and GET_BIG_DATA with the first 46; both leave the appliance as it is.
  pub set_group-get_user_data :
      (now later : ℕ)
      → length group ≡ control_size
      → control_size ≤ length server.ac_status
      → let after = with_control group server in
        (status_request_handler now (code Kinds.control) (0x60 ∷ 0x01 ∷ group) server ≡ (
          after,
          send_answer now (status_bytes 0x6d5f user_data_size after.ac_status) ∷ [],
          handler_ok,
        ))
        × (status_request_handler later (code Kinds.control) (0x4d ∷ 0x01 ∷ []) after ≡ (
          after,
          send_answer later (status_bytes 0x6d01 user_data_size after.ac_status) ∷ [],
          handler_ok,
        ))
        × (status_request_handler later (code Kinds.control) (0x4d ∷ 0xfe ∷ []) after ≡ (
          after,
          send_answer later (status_bytes 0x7d01 full_size after.ac_status) ∷ [],
          handler_ok,
        ))
  unfolding status_request_handler status_message Message.make
  set_group-get_user_data now later h k = (
    if_false _ _ (ltb-false (length (0x60 ∷ 0x01 ∷ group)) 2 (omega arith))
        ∙ (if_false _ (given (set_group control_size 0 (0x60 ∷ 0x01 ∷ group) server.ac_status)) (
              ap not {x = length (0x60 ∷ 0x01 ∷ group) - 2 == control_size} {y = true}
                (ground (arith, h)))
            ∙ ap given (set_group_lem h k)),
    refl,
    refl,
  )
    where
      given : List ℕ → Handled
      given l = answer_status now 0x6d5f user_data_size (record server { ac_status = l })
