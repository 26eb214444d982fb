-- ===== src/Circular/Tests.antt =====
-- The theorems on circular_buffer.h at a ring that wraps around, and at a full one.
use haier_protocol.Prelude.{◌-◌, ◌<◌, ◌≡◌, ◌≢◌, ◌⊎◌, refl, min, true, false, take, replicate, arith}
use haier_protocol.Circular.{Circular, IsValid, get_size, get_space, pop, reserve, assign}
use haier_protocol.Circular.Contents.{contents}
use haier_protocol.Circular.Append.{reserve_overruns}
use haier_protocol.Circular.Remove.{Drops, pop_lem}
use haier_protocol.Circular.Copy.{assign_lem}

-- 13 bytes, the first 8 of them at the end of the storage
abbrev ring : Circular
ring = record { is_empty = false; capacity = 128; buffer = replicate 128 7; head = 120; tail = 5 }

ring-IsValid : IsValid ring
ring-IsValid = record {
  storage = refl;
  large = omega arith;
  small = omega arith;
  head_in = omega arith;
  tail_in = omega arith;
  empty_at = λ e. cc;
}

abbrev full : Circular
full = record { is_empty = false; capacity = 128; buffer = replicate 128 7; head = 3; tail = 3 }

full-IsValid : IsValid full
full-IsValid = record {
  storage = refl;
  large = omega arith;
  small = omega arith;
  head_in = omega arith;
  tail_in = omega arith;
  empty_at = λ e. refl;
}

ring_size : get_size ring ≡ 13
unfolding get_size
ring_size = refl

reserve_overruns_example : get_space full < (reserve full 200).2
reserve_overruns_example =
    reserve_overruns 200 full-IsValid refl (omega arith) (omega arith) (omega arith)

pop_lem_example :
    let (d, items) = pop ring 9 in
    (items ≡ take (min 9 (get_size ring)) (contents ring)) × Drops ring d (min 9 (get_size ring))
pop_lem_example = pop_lem 9 ring-IsValid

assign_lem_example :
    (((true ≡ false) ⊎ (full.tail ≢ full.head))
      → contents (assign (replicate 128 0) (record full { is_empty = true }) full) ≡ contents full)
    × (true ≢ false
        → full.tail ≡ full.head
        → get_size (assign (replicate 128 0) (record full { is_empty = true }) full)
          ≡ 128 - get_size full)
assign_lem_example =
    assign_lem (replicate 128 0) (record full { is_empty = true }) full-IsValid refl
