-- ===== src/SmartAir2/Tests.antt =====
-- Runs of the appliance of tools/utils/smartair2_server.cpp, and its theorems at concrete states.
use haier_protocol.Prelude.{
  ℕ, ◌<◌, ◌≡◌, refl, true, false, List, [], ◌∷◌, length, replicate, get_or, arith, ◌==◌, ◌||◌,
  if◌then◌else◌,
}
use haier_protocol.Frame.Kinds.{code, control}
use haier_protocol.SmartAir2.Packet.{control_size}
use haier_protocol.SmartAir2.Server.{
  init_ac_state, status_request_handler, report_network_status_handler, preloop,
}
use haier_protocol.SmartAir2.Status.{
  Switched, answered, power_command, power_command-query, set_group_command,
}
use haier_protocol.SmartAir2.Answers.{Answered, handlers-Answered}

initial_bytes :
    init_ac_state
    ≡ 0 ∷ 18 ∷ 0 ∷ 56 ∷ 0 ∷ 0x7f ∷ 0 ∷ 0 ∷ 0 ∷ 0 ∷ 0 ∷ 0 ∷ 0 ∷ 3 ∷ 0 ∷ 0 ∷ 128 ∷ 16 ∷ 0 ∷ 2 ∷ 0 ∷ 0
      ∷ 0 ∷ 9 ∷ []
unfolding init_ac_state
initial_bytes = refl

-- The pairing mode switches the power on.
pairing_powers : get_or (preloop false true init_ac_state) 17 0 ≡ 17
unfolding preloop init_ac_state
pairing_powers = refl

abbrev zeros : List ℕ
zeros = replicate 24 0

power_command-query_example :
    let after = (status_request_handler 1 (code control) (power_command true) zeros).0 in
    Switched (if true then 1 else 0) zeros after
    × (status_request_handler 1 (code control) (power_command true) zeros
        ≡ answered 1 (if true then 0x6d02 else 0x6d03) after)
    × (status_request_handler 2 (code control) (0x4d ∷ 0x01 ∷ []) after ≡ answered 2 0x6d01 after)
power_command-query_example = power_command-query 1 2 true zeros (omega arith)

set_group_command_example :
    let after = (status_request_handler 1 (code control) (0x4d ∷ 0x5f ∷ replicate 24 7) zeros).0 in
    (length after ≡ control_size)
    × ((i : ℕ)
        → i < control_size
        → get_or after i 0
          ≡ (if i == 1 || i == 3 || i == 5 then get_or zeros i 0 else get_or (replicate 24 7) i 0))
    × (status_request_handler 1 (code control) (0x4d ∷ 0x5f ∷ replicate 24 7) zeros
        ≡ answered 1 0x6d5f after)
set_group_command_example = set_group_command 1 (replicate 24 7) zeros refl refl

handlers-Answered_example :
    Answered 5 zeros (status_request_handler 5 1 (0x4d ∷ 0x09 ∷ []) zeros)
    × Answered 5 zeros (report_network_status_handler 5 1 (0x4d ∷ 0x09 ∷ []) zeros)
handlers-Answered_example = handlers-Answered 5 zeros 1 (0x4d ∷ 0x09 ∷ [])
