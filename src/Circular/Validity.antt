-- ===== src/Circular/Validity.antt =====
-- Sizes of a valid ring, and the operations of circular_buffer.h that keep it valid.
use haier_protocol.Prelude.{ℕ, ◌+◌, ◌-◌, ◌%◌, ◌≤◌, ◌≡◌, ◌≢◌, true, false, arith}
use haier_protocol.Circular.{Circular, IsValid, get_size, get_space}
use haier_protocol.Circular.Window.{mod_cases}

pub get_size-le : {c : Circular} → IsValid c → get_size c ≤ c.capacity
unfolding get_size
get_size-le v = ground arith

pub get_space_lem : {c : Circular} → IsValid c → get_space c ≡ c.capacity - get_size c
unfolding get_space get_size
get_space_lem v = ground arith

-- Where the next byte goes.
pub tail_lem : {c : Circular} → IsValid c → c.tail ≡ (c.head + get_size c) % c.capacity
unfolding get_size
tail_lem {c} v = ground (
  arith,
  mod_cases (c.head + 0) c.capacity,
  mod_cases (c.head + c.capacity) c.capacity,
  mod_cases (c.head + (c.tail - c.head)) c.capacity,
  mod_cases (c.head + (c.capacity - c.head + c.tail)) c.capacity,
)

-- A ring is marked empty exactly when it holds nothing.
pub is_empty_iff_size :
    {c : Circular}
    → IsValid c
    → (c.is_empty ≡ true → get_size c ≡ 0) × (get_size c ≡ 0 → c.is_empty ≡ true)
unfolding get_size
is_empty_iff_size v = (λ e. ground arith, λ e. ground arith)

-- The size is what the two indices and the flag say, so it can be read off from them.
pub get_size-eq :
    {c : Circular} (n : ℕ)
    → IsValid c
    → n ≤ c.capacity
    → c.tail ≡ (c.head + n) % c.capacity
    → (n ≡ 0 → c.is_empty ≡ true)
    → (n ≢ 0 → c.is_empty ≡ false)
    → get_size c ≡ n
unfolding get_size
get_size-eq {c} n v h t e f = ground (arith, mod_cases (c.head + n) c.capacity)
