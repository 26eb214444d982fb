-- ===== src/Stream.antt =====
-- include/utils/protocol_stream.h: the byte stream that the library is given. Its implementation is
-- the client's; what the interface's comments promise of it are the fields below the operations.
use haier_protocol.Prelude.{ℕ, ◌≡◌, List, length, take, drop}

pub record ProtocolStream : Type 1 where
  pub State : Type 0
  pub available : State → ℕ
  pub read_array : State → ℕ → State × List ℕ
  pub write_array : State → List ℕ → State
  -- the bytes in the read buffer
  pub unread : State → List ℕ
  pub available_lem : (s : State) → available s ≡ length (unread s)
  pub read_array_lem :
      (s : State) (n : ℕ)
      → let (s', bytes) = read_array s n in
        (bytes ≡ take n (unread s)) × (unread s' ≡ drop n (unread s))
