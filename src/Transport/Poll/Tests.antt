-- ===== src/Transport/Poll/Tests.antt =====
-- The theorems on bytes that arrive in parts, at concrete bytes.
use haier_protocol.Prelude.{◌≡◌, refl, List, [], ◌∷◌, ◌++◌, some, arith}
use haier_protocol.Circular.{get_size}
use haier_protocol.Frame.Wire.{wire}
use haier_protocol.Frame.Build.{header_accounts, data_accounts}
use haier_protocol.Frame.Build
use haier_protocol.Frame.Checksums.{crc16_byte, crc_table}
use haier_protocol.Transport.State.{Transport}
use haier_protocol.Transport.Scan.{process_data}
use haier_protocol.Transport.Line.{line}
use haier_protocol.Transport.Frames.{Recovers}
use haier_protocol.Transport.Alike.{Alike}
use haier_protocol.Transport.InParts.{IsSettled, together, Arrives, process_data-Arrives}
use haier_protocol.Transport.Poll.{
  Poll, poll_all, parts_of, HasRoom, capacity-HasRoom, poll_all-Arrives, poll_all-Recovers,
}
use haier_protocol.Transport.Tests.{
  memory, handler, holding, empty_ring, empty_ring-IsReady, plain, doubled, noisy_pieces,
  noisy_wires, noisy_wires-IsValid, noisy-IsPiece,
}

-- The first frame is cut in its header, the second behind a 0xFF of its data.
abbrev some_polls : List (Poll memory)
some_polls =
    (5, (1 ∷ 0xff ∷ 2 ∷ 0xff ∷ 0xff ∷ 0xff ∷ 9 ∷ 0 ∷ [], []))
    ∷ (
      10,
      (
        0 ∷ 0 ∷ 0 ∷ 0 ∷ 0 ∷ 1 ∷ 0x10 ∷ 0x1a ∷ 0xff ∷ 0xff ∷ 9 ∷ 0 ∷ 0 ∷ 0 ∷ 0 ∷ 0 ∷ 0 ∷ 1 ∷ 0x10
            ∷ 0x1b ∷ 7 ∷ 0xff ∷ 0xff ∷ 9 ∷ 0x40 ∷ 0 ∷ 0 ∷ 0 ∷ 0 ∷ 0 ∷ 2 ∷ 0xff ∷ [],
        [],
      ),
    )
    ∷ (15, (0x55 ∷ 0x9f ∷ 64 ∷ 47 ∷ 3 ∷ 0xff ∷ [], []))
    ∷ []

in_parts : together (parts_of memory some_polls) ≡ noisy_wires
in_parts = refl

settled : IsSettled (handler empty_ring)
unfolding get_size
settled = record { ready = empty_ring-IsReady; looked = refl }

room : HasRoom memory some_polls (handler empty_ring)
unfolding get_size
room = capacity-HasRoom memory some_polls (handler empty_ring) settled (omega arith)

on_the_line : together (parts_of memory some_polls) ≡ line noisy_pieces ++ 3 ∷ 0xff ∷ []
unfolding wire Build.make header_accounts data_accounts crc16_byte crc_table
on_the_line = refl

poll_all-Recovers_example :
    (w : Transport) × (poll_all memory some_polls (handler empty_ring) ≡ some w)
    × Recovers (handler empty_ring) w (plain ∷ doubled ∷ []) 1
poll_all-Recovers_example =
    poll_all-Recovers memory some_polls (handler empty_ring) noisy_pieces (3 ∷ 0xff ∷ []) settled
      refl noisy-IsPiece (λ h. omega arith, (λ h. absurd (h refl), tt)) on_the_line (omega arith)
      room

-- Where the three turns end.
arrived :
    (w : Transport) × (poll_all memory some_polls (handler empty_ring) ≡ some w)
    × Arrives (parts_of memory some_polls) (handler empty_ring) w
arrived = poll_all-Arrives memory some_polls (handler empty_ring) settled room

at_once :
    Alike
      (together (parts_of memory some_polls))
      (handler empty_ring)
      (handler (holding noisy_wires))
unfolding get_size
at_once = record {
  rings = record { valid = empty_ring-IsReady.valid; valid' = noisy_wires-IsValid; bytes = refl };
  same_pos = refl;
  same_sep = refl;
  same_found = refl;
  same_frame = refl;
  same_start = refl;
  same_queue = refl;
}

process_data-Arrives_example :
    (v' : Transport) × (process_data 20 (handler (holding noisy_wires)) ≡ some v')
    × Alike [] arrived.0 v'
process_data-Arrives_example =
    process_data-Arrives 20 (parts_of memory some_polls) (handler empty_ring) arrived.0
      (handler (holding noisy_wires)) settled arrived.2 at_once
