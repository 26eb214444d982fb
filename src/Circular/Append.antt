-- ===== src/Circular/Append.antt =====
-- The operations of circular_buffer.h that put bytes behind those that a ring holds: `push` and
-- `reserve`.
use haier_protocol.Prelude.{
  ℕ, ◌+◌, ◌-◌, ◌%◌, ◌≤◌, ◌<◌, ◌≡◌, refl, sym, ap, ◌∙◌, min, false, List, [], ◌∷◌, ◌++◌, arith,
  length, take, length-take, ltb, if◌then◌else◌, ◌==◌, ◌⊎◌, inl, inr, Bool-cases, ◌||◌, not,
}
use haier_protocol.Circular.{
  Circular, IsValid, get_size, get_space, push, push_loop, push_all, reserve, store,
}
use haier_protocol.Circular.Window.{mod_cases}
use haier_protocol.Circular.Loops.{
  length-push_loop, push_loop-tail, push_loop-window, store_at-push_loop,
}
use haier_protocol.Circular.Validity.{get_size-le, get_space_lem, tail_lem}
use haier_protocol.Circular.Contents.{contents}

-- a ring whose indices have moved on by the bytes that were appended
append_at :
    {c : Circular} (d : Circular) (n : ℕ)
    → IsValid c
    → get_size c + n ≤ c.capacity
    → d.capacity ≡ c.capacity
    → d.head ≡ c.head
    → d.tail ≡ (c.tail + n) % c.capacity
    → d.is_empty ≡ (if ltb 0 n then false else c.is_empty)
    → length d.buffer ≡ length c.buffer
    → IsValid d × (get_size d ≡ get_size c + n)
unfolding get_size
append_at {c} d n v h e1 e2 e3 e4 e5 = (
  ground (arith, mod_cases (c.tail + n) c.capacity),
  ground (arith, mod_cases (c.tail + n) c.capacity),
)

-- `d` is the ring `c` with the bytes `xs` behind those it held.
pub record Appends (c d : Circular) (xs : List ℕ) : Type 0 where
  pub valid : IsValid d
  pub same_capacity : d.capacity ≡ c.capacity
  pub size : get_size d ≡ get_size c + length xs
  pub bytes : contents d ≡ contents c ++ xs

append_window :
    {c : Circular} (d : Circular) (xs : List ℕ)
    → IsValid c
    → get_size c + length xs ≤ c.capacity
    → d.capacity ≡ c.capacity
    → d.head ≡ c.head
    → d.buffer ≡ (push_loop c.capacity c.buffer c.tail xs).0
    → d.tail ≡ (c.tail + length xs) % c.capacity
    → d.is_empty ≡ (if ltb 0 (length xs) then false else c.is_empty)
    → Appends c d xs
append_window {c} d xs v h e1 e2 e3 e4 e5 =
    let len = ap length e3 ∙ length-push_loop c.capacity c.buffer c.tail xs in
    let (valid, size) = append_at d (length xs) v h e1 e2 e4 e5 len in
    record {
      valid = valid;
      same_capacity = e1;
      size = size;
      bytes =
          rw (size, e1, e2, e3)
            (push_loop-window c.capacity c.head (get_size c) c.buffer xs (omega (arith, v.storage))
              v.head_in v.small h (tail_lem v));
    }

-- On a valid ring `push` of many appends as many of the bytes as there is space for, the first ones,
-- and returns how many.
pub push_all_lem :
    {c : Circular} (items : List ℕ)
    → IsValid c
    → let (d, n) = push_all c items in
      (n ≡ min (c.capacity - get_size c) (length items)) × Appends c d (take n items)
unfolding push_all
push_all_lem {c} items v =
    let n = min (get_space c) (length items) in
    let e : length (take n items) ≡ n = length-take n items ∙ omega arith in
    let fits : get_size c + length (take n items) ≤ c.capacity =
      omega (arith, get_space_lem v, get_size-le v) in
    (
      ap (λ k. min k (length items)) (get_space_lem v),
      append_window _ (take n items) v fits refl refl refl
          (push_loop-tail c.capacity c.buffer c.tail (take n items) v.tail_in v.small
            (omega (arith, get_size-le v)))
          (ap (λ k. if ltb 0 k then false else c.is_empty) (sym e)),
    )

-- On a valid ring that is not full `push` of one byte appends it and returns 1; a full ring it leaves
-- alone and returns 0.
pub push_lem :
    {c : Circular} (x : ℕ)
    → IsValid c
    → ((get_size c < c.capacity) × ((push c x).1 ≡ 1) × Appends c (push c x).0 (x ∷ []))
      ⊎ ((get_size c ≡ c.capacity) × (push c x ≡ (c, 0)))
unfolding push push_loop
push_lem {c} x v = elim (Bool-cases (c.is_empty || not (c.tail == c.head))) [
  | inl free ↦
      let room : get_size c < c.capacity = unfold get_size in ground arith in
      inl (
        room,
        rw free,
        rw free (
            append_window _ (x ∷ []) v (omega arith) refl refl refl
              (ap (λ k. k % c.capacity) (omega (arith, v.tail_in, v.small))) refl),
      )
  | inr full ↦ inr (unfold get_size in ground arith, rw full)
]

-- On a valid ring, where no more is asked for than there is space for, `reserve` grants it up to the
-- end of the storage, and a caller that fills what was granted has appended these bytes.
pub reserve_lem :
    {c : Circular} (size : ℕ) (xs : List ℕ)
    → IsValid c
    → size ≤ c.capacity - get_size c
    → let (d, at, n) = reserve c size in
      (n ≡ min size (c.capacity - c.tail)) × (length xs ≡ n → Appends c (store d at xs) xs)
unfolding reserve
reserve_lem {c} size xs v h =
    let n = (reserve c size).2 in
    let e : n ≡ min size (c.capacity - c.tail) = ground arith in
    (
      e,
      λ len.
          append_window _ xs v (omega (arith, get_size-le v)) refl refl
            (store_at-push_loop c.capacity c.buffer c.tail xs (omega (arith, v.tail_in)) v.small)
            (ap (λ k. k % c.capacity) (omega (arith, v.tail_in, v.small)))
            (ap (λ k. if ltb 0 k then false else c.is_empty) (sym len)),
    )

pub reserve-tail :
    {c : Circular} (size : ℕ)
    → IsValid c
    → size ≤ c.capacity - get_size c
    → let (d, _, n) = reserve c size in d.tail ≡ (c.tail + n) % c.capacity
unfolding reserve
reserve-tail {c} size v h =
    let n = (reserve c size).2 in
    let e : n ≤ c.capacity - c.tail = ground arith in
    ap (λ k. k % c.capacity) (omega (arith, e, v.tail_in, v.small))

-- On a valid ring that is not empty, whose tail is not behind its head, and whose head is not 0,
-- `reserve` grants a caller that asks for the whole capacity or more a greater number of bytes than there is space for.
pub reserve_overruns :
    {c : Circular} (size : ℕ)
    → IsValid c
    → c.is_empty ≡ false
    → c.tail ≤ c.head
    → 0 < c.head
    → c.capacity ≤ size
    → get_space c < (reserve c size).2
reserve_overruns {c} size v e h p q = omega (arith, free, reserved_size, v.tail_in, v.head_in)
  where
    free : get_space c ≡ c.head - c.tail
    free = get_space_lem v ∙ (unfold get_size in ground arith)

    reserved_size : (reserve c size).2 ≡ min size (c.capacity - c.tail)
    reserved_size = unfold reserve in ground arith
