-- ===== src/Circular.antt =====
-- include/utils/circular_buffer.h at uint8_t, its only instantiation: a ring of bytes with `head_`,
-- `tail_` and an emptiness flag, which tells an empty ring from a full one.
pub mod Window
pub mod Loops
pub mod Validity
pub mod Contents
pub mod Append
pub mod Remove
pub mod Copy
pub mod Tests
use haier_protocol.Prelude.{
  ℕ, zero, suc, ◌+◌, ◌-◌, ◌*◌, ◌%◌, ◌≤◌, ◌<◌, ◌≡◌, min, Bool, true, false, not, ◌||◌, List, [], ◌∷◌,
  length, get_or, set, take, ltb, ◌==◌, if◌then◌else◌, size_add, size_sub, size_mod, store_at,
}

pub record Circular : Type 0 where
  pub is_empty : Bool
  pub capacity : ℕ
  pub buffer : List ℕ
  pub head : ℕ
  pub tail : ℕ

-- `CIRCULAR_BUFFER_MINIMUM_SIZE`
abbrev pub minimum_size : ℕ
minimum_size = 0x80

abbrev pub capacity_for : ℕ → ℕ
capacity_for capacity = if ltb capacity minimum_size then minimum_size else capacity

-- The constructor. `storage` is what `new T[capacity_]` returns, with whatever it holds.
unfoldable pub make : List ℕ → ℕ → Circular
make storage capacity = record {
  is_empty = true;
  capacity = capacity_for capacity;
  buffer = storage;
  head = 0;
  tail = 0;
}

-- `operator[]`
unfoldable pub index : Circular → ℕ → ℕ
index c i = get_or c.buffer (size_add c.head i % c.capacity) 0

unfoldable pub get_size : Circular → ℕ
get_size c =
    if c.tail == c.head
    then (if c.is_empty then 0 else c.capacity)
    else (if ltb c.head c.tail
        then size_sub c.tail c.head
        else size_add (size_sub c.capacity c.head) c.tail)

unfoldable pub get_space : Circular → ℕ
unfolding get_size
get_space c = size_sub c.capacity (get_size c)

abbrev pub next : ℕ → ℕ → ℕ
next capacity i = size_add i 1 % capacity

-- `push` of one item
unfoldable pub push : Circular → ℕ → Circular × ℕ
push c item =
    if c.is_empty || not (c.tail == c.head)
    then (
      record c {
        buffer = set c.buffer c.tail item;
        tail = next c.capacity c.tail;
        is_empty = false;
      },
      1,
    )
    else (c, 0)

-- the loop of `push` and what it does to `buffer_` and `tail_`
unfoldable pub push_loop : ℕ → List ℕ → ℕ → List ℕ → List ℕ × ℕ
push_loop capacity buffer tail [] = (buffer, tail)
push_loop capacity buffer tail (x ∷ items) =
    push_loop capacity (set buffer tail x) (next capacity tail) items

-- `push` of `size` items: the list holds them all.
unfoldable pub push_all : Circular → List ℕ → Circular × ℕ
unfolding push_loop get_space
push_all c items =
    let size_to_push = min (get_space c) (length items) in
    let (buffer', tail') = push_loop c.capacity c.buffer c.tail (take size_to_push items) in
    (
      record c {
        buffer = buffer';
        tail = tail';
        is_empty = if ltb 0 size_to_push then false else c.is_empty;
      },
      size_to_push,
    )

-- the loop of `pop`: what it stores through `items`, and the new `head_`
unfoldable pub pop_loop : ℕ → List ℕ → ℕ → ℕ → List ℕ × ℕ
pop_loop capacity buffer head zero = ([], head)
pop_loop capacity buffer head (suc n) =
    let (items, head') = pop_loop capacity buffer (next capacity head) n in
    (get_or buffer head 0 ∷ items, head')

-- `pop`: the new ring, and the items read, as many as it returns
unfoldable pub pop : Circular → ℕ → Circular × List ℕ
unfolding pop_loop get_size
pop c size =
    let sz = get_size c in
    let pop_size = if ltb size sz then size else sz in
    let (items, head') = pop_loop c.capacity c.buffer c.head pop_size in
    (record c { head = head'; is_empty = if pop_size == sz then true else c.is_empty }, items)

-- `reserve`: the new ring, the index at which the returned pointer stands, and the new `size`
unfoldable pub reserve : Circular → ℕ → Circular × ℕ × ℕ
reserve c size =
    let head = if c.head == 0 then c.capacity else 0 in
    let new_size =
      if ltb c.tail head
      then min size (size_sub head c.tail)
      else min size (size_sub c.capacity c.tail) in
    (
      record c {
        tail = size_add c.tail new_size % c.capacity;
        is_empty = if ltb 0 new_size then false else c.is_empty;
      },
      c.tail,
      new_size,
    )

-- what a caller does with the pointer: it stores bytes from there on
abbrev pub store : Circular → ℕ → List ℕ → Circular
store c i xs = record c { buffer = store_at c.buffer i xs }

unfoldable pub clear : Circular → Circular
clear c = record c { is_empty = true; head = 0; tail = 0 }

unfoldable pub drop : Circular → ℕ → Circular × ℕ
unfolding get_size
drop c size =
    let sz = get_size c in
    let drop_size = if ltb size sz then size else sz in
    (
      record c {
        head = size_add c.head drop_size % c.capacity;
        is_empty = if drop_size == sz then true else c.is_empty;
      },
      drop_size,
    )

-- the loop of the copy constructor and of `operator=`, over `size - n` items from the `n`-th on
unfoldable pub copy_loop : ℕ → ℕ → List ℕ → ℕ → ℕ → List ℕ → List ℕ
copy_loop capacity head source zero i buffer = buffer
copy_loop capacity head source (suc n) i buffer =
    let ind = size_add head i % capacity in
    copy_loop capacity head source n (i + 1) (set buffer ind (get_or source ind 0))

-- The copy constructor; `storage` is the new allocation.
unfoldable pub copy : List ℕ → Circular → Circular
unfolding copy_loop get_size
copy storage source = record source {
  buffer = copy_loop source.capacity source.head source.buffer (get_size source) 0 storage;
}

-- `operator=` from another ring. The flag of the target stays as it was.
unfoldable pub assign : List ℕ → Circular → Circular → Circular
unfolding copy_loop get_size
assign storage target source = record target {
  capacity = source.capacity;
  head = source.head;
  tail = source.tail;
  buffer = copy_loop source.capacity source.head source.buffer (get_size source) 0 storage;
}

-- The representation invariant: the storage is there, the indices are in it, no sum wraps, and the
-- flag is up at equal indices only.
pub record IsValid (c : Circular) : Type 0 where
  pub storage : length c.buffer ≡ c.capacity
  pub large : minimum_size ≤ c.capacity
  pub small : 2 * c.capacity ≤ size_mod
  pub head_in : c.head < c.capacity
  pub tail_in : c.tail < c.capacity
  pub empty_at : c.is_empty ≡ true → c.tail ≡ c.head
