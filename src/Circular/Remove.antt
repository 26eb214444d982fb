-- ===== src/Circular/Remove.antt =====
-- The operations of circular_buffer.h that take bytes from the front: `drop`, `pop`, `clear`.
use haier_protocol.Prelude.{
  ℕ, zero, suc, ◌+◌, ◌-◌, ◌*◌, ◌%◌, ◌≤◌, ◌<◌, ◌≡◌, ◌≢◌, refl, sym, ap, ap₂, ◌∙◌, min, Bool, true,
  false, List, [], ◌∷◌, ◌++◌, arith, length, get_or, set, take, take_all, drop_all, length-set,
  length-take, size_mod, ltb, if◌then◌else◌, ◌==◌, ◌⊎◌, inl, inr, Bool-cases, ◌||◌, not,
}
use haier_protocol.Prelude
use haier_protocol.Circular.{Circular, IsValid, get_size, pop, clear, drop}
use haier_protocol.Circular.Window.{mod_cases, drop-window, take-window}
use haier_protocol.Circular.Loops.{pop_loop_lem}
use haier_protocol.Circular.Validity.{get_size-le}
use haier_protocol.Circular.Contents.{contents, length-contents}

-- `d` is the ring `c` without its `n` oldest bytes.
pub record Drops (c d : Circular) (n : ℕ) : Type 0 where
  pub valid : IsValid d
  pub same_capacity : d.capacity ≡ c.capacity
  pub size : get_size d ≡ get_size c - n
  pub bytes : contents d ≡ Prelude.drop n (contents c)

drop_at :
    {c : Circular} (d : Circular) (n : ℕ)
    → IsValid c
    → n ≤ get_size c
    → d.capacity ≡ c.capacity
    → d.buffer ≡ c.buffer
    → d.tail ≡ c.tail
    → d.head ≡ (c.head + n) % c.capacity
    → d.is_empty ≡ (if n == get_size c then true else c.is_empty)
    → IsValid d × (get_size d ≡ get_size c - n)
unfolding get_size
drop_at {c} d n v h e1 e2 e3 e4 e5 = (
  ground (arith, mod_cases (c.head + n) c.capacity, ap length e2),
  ground (arith, mod_cases (c.head + n) c.capacity),
)

drop_window :
    {c : Circular} (d : Circular) (n : ℕ)
    → IsValid c
    → n ≤ get_size c
    → d.capacity ≡ c.capacity
    → d.buffer ≡ c.buffer
    → d.tail ≡ c.tail
    → d.head ≡ (c.head + n) % c.capacity
    → d.is_empty ≡ (if n == get_size c then true else c.is_empty)
    → Drops c d n
drop_window {c} d n v h e1 e2 e3 e4 e5 =
    let (valid, size) = drop_at d n v h e1 e2 e3 e4 e5 in
    record {
      valid = valid;
      same_capacity = e1;
      size = size;
      bytes =
          rw (size, e1, e2, e4)
            (sym
              (drop-window c.buffer c.capacity n c.head (get_size c) v.head_in h (get_size-le v)));
    }

-- On a valid ring `drop` forgets the oldest bytes, `size` of them or all there are, leaves the others
-- and returns how many it forgot.
pub drop_lem :
    {c : Circular} (size : ℕ)
    → IsValid c
    → let (d, n) = drop c size in (n ≡ min size (get_size c)) × Drops c d n
unfolding drop
drop_lem {c} size v =
    let n = if ltb size (get_size c) then size else get_size c in
    let e : n ≡ min size (get_size c) = ground arith in
    (
      e,
      drop_window _ n v (omega arith) refl refl refl
          (ap (λ k. k % c.capacity) (omega (arith, get_size-le v))) refl,
    )

-- On a valid ring `pop` hands over the oldest bytes in order, as many as were asked for or all there
-- are, and leaves the others.
pub pop_lem :
    {c : Circular} (size : ℕ)
    → IsValid c
    → let (d, items) = pop c size in
      let n = min size (get_size c) in (items ≡ take n (contents c)) × Drops c d n
unfolding pop
pop_lem {c} size v =
    let n = if ltb size (get_size c) then size else get_size c in
    let e : n ≡ min size (get_size c) = ground arith in
    let le : n ≤ get_size c = omega arith in
    let (items, head) =
      pop_loop_lem c.capacity c.buffer c.head n v.head_in v.small (omega (arith, get_size-le v)) in
    rw (← e) (
      items ∙ sym (take-window c.buffer c.capacity n c.head (get_size c) le),
      drop_window _ n v le refl refl refl head refl,
    )

-- `clear` leaves nothing.
pub clear_lem : {c : Circular} → IsValid c → Drops c (clear c) (get_size c)
unfolding clear get_size
clear_lem {c} v = record {
  valid = ground arith;
  same_capacity = refl;
  size = omega arith;
  bytes = sym (drop_all (get_size c) (contents c) (omega (arith, length-contents c)));
}
