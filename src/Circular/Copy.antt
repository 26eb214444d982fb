-- ===== src/Circular/Copy.antt =====
-- The copy constructor and `operator=` of circular_buffer.h.
use haier_protocol.Prelude.{
  ℕ, zero, suc, ◌+◌, ◌-◌, ◌*◌, ◌%◌, ◌≤◌, ◌<◌, ◌≡◌, ◌≢◌, ◌⊎◌, refl, sym, ap, ◌∙◌, List, [], ◌∷◌,
  ◌++◌, arith, append-nil, append_assoc, length, get_or, set, length-set, size_mod, size_add,
}
use haier_protocol.Circular.{Circular, IsValid, get_size, copy_loop, copy, assign}
use haier_protocol.Circular.Window.{window, window-set, mod_cases}
use haier_protocol.Circular.Contents.{contents}
use haier_protocol.Circular.Validity.{get_size-le}

length-copy_loop :
    (cap h : ℕ) (source : List ℕ) (n i : ℕ) (buf : List ℕ)
    → length (copy_loop cap h source n i buf) ≡ length buf
unfolding copy_loop
length-copy_loop cap h source zero i buf = refl
length-copy_loop cap h source (suc n) i buf =
    length-copy_loop cap h source n (i + 1) _
    ∙ length-set buf (size_add h i % cap) (get_or source (size_add h i % cap) 0)

-- The loop carries the window over, from its `i`-th byte on.
copy_loop-window :
    (cap h : ℕ) (source : List ℕ) (n i : ℕ) (buf : List ℕ)
    → cap ≤ length buf
    → h < cap
    → 2 * cap ≤ size_mod
    → i + n ≤ cap
    → window (copy_loop cap h source n i buf) cap h (i + n)
      ≡ window buf cap h i ++ window source cap ((h + i) % cap) n
unfolding copy_loop
copy_loop-window cap h source zero i buf hs hh hc hn =
    ap (window buf cap h) (omega arith) ∙ sym (append-nil (window buf cap h i))
copy_loop-window cap h source (suc n) i buf hs hh hc hn =
    let ind = size_add h i % cap in
    let e : ind ≡ (h + i) % cap = ap (λ k. k % cap) (omega arith) in
    let x = get_or source ind 0 in
    let next : (h + (i + 1)) % cap ≡ ((h + i) % cap + 1) % cap = ground (
      arith,
      mod_cases (h + i) cap,
      mod_cases (h + (i + 1)) cap,
      mod_cases ((h + i) % cap + 1) cap,
    ) in
    ap (window _ cap h) (omega arith)
    ∙ (copy_loop-window cap h source n (i + 1) (set buf ind x) (omega (arith, length-set buf ind x))
          hh hc (omega arith)
        ∙ (ap (λ k. window (set buf ind x) cap h k ++ window source cap ((h + (i + 1)) % cap) n)
              {y = suc i} (omega arith)
            ∙ (ap (λ w. w ++ window source cap ((h + (i + 1)) % cap) n)
                  (window-set buf cap x i h hs hh (omega arith) e)
                ∙ (append_assoc (window buf cap h i) (x ∷ [])
                      (window source cap ((h + (i + 1)) % cap) n)
                    ∙ rw (next, e)))))

copy_loop-window_whole :
    (cap h : ℕ) (source : List ℕ) (n : ℕ) (buf : List ℕ)
    → cap ≤ length buf
    → h < cap
    → 2 * cap ≤ size_mod
    → n ≤ cap
    → window (copy_loop cap h source n 0 buf) cap h n ≡ window source cap h n
copy_loop-window_whole cap h source n buf hs hh hc hn =
    ap (window _ cap h) (omega arith)
    ∙ (copy_loop-window cap h source n 0 buf hs hh hc (omega arith)
        ∙ ap (λ k. window source cap k n) (ground (arith, mod_cases (h + 0) cap)))

-- The copy of a valid ring into a new storage of its capacity is a valid ring with the same bytes in
-- the same order.
pub copy_lem :
    {c : Circular} (storage : List ℕ)
    → IsValid c
    → length storage ≡ c.capacity
    → IsValid (copy storage c) × (contents (copy storage c) ≡ contents c)
unfolding copy get_size
copy_lem {c} storage v h = (
  ground (arith, length-copy_loop c.capacity c.head c.buffer (get_size c) 0 storage),
  copy_loop-window_whole c.capacity c.head c.buffer (get_size c) storage (omega arith) v.head_in
      v.small (get_size-le v),
)

-- `operator=` from a valid ring, into a new storage of its capacity, gives a ring with the same bytes
-- where the flags of target and source agree or the source's indices differ. Where the flags differ
-- and the indices meet, an empty source gives a full ring and a full source an empty one.
pub assign_lem :
    {c : Circular} (storage : List ℕ) (target : Circular)
    → IsValid c
    → length storage ≡ c.capacity
    → (((target.is_empty ≡ c.is_empty) ⊎ (c.tail ≢ c.head))
        → contents (assign storage target c) ≡ contents c)
      × (target.is_empty ≢ c.is_empty
          → c.tail ≡ c.head
          → get_size (assign storage target c) ≡ c.capacity - get_size c)
unfolding assign
assign_lem {c} storage target v h = (
  λ same.
      ap (window _ c.capacity c.head) (size_same same)
      ∙ copy_loop-window_whole c.capacity c.head c.buffer (get_size c) storage (omega arith)
          v.head_in v.small (get_size-le v),
  λ flags at. unfold assign get_size in ground arith,
)
  where
    size_same :
        (target.is_empty ≡ c.is_empty) ⊎ (c.tail ≢ c.head)
        → get_size (assign storage target c) ≡ get_size c
    size_same same = unfold assign get_size in ground arith
