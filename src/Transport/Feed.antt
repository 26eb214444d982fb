-- ===== src/Transport/Feed.antt =====
-- `read_data` of protocol_transport.cpp: what it moves from the stream into the buffer.
use native.Mathlib.Nat.{mod_self}
use haier_protocol.Prelude.{
  ℕ, ◌+◌, ◌-◌, ◌%◌, ◌≤◌, ◌<◌, ◌≡◌, inl, inr, refl, sym, ap, ap₂, ◌∙◌, subst, ◌++◌, arith, min,
  length, take, drop, length-take, length-drop, append_assoc, length-append, take-add, drop-add,
  ltb, leb, if◌then◌else◌, Bool-cases,
}
use haier_protocol.Circular.{get_size, get_space, reserve, store}
use haier_protocol.Circular.Validity.{get_size-le, get_space_lem}
use haier_protocol.Circular.Contents.{contents}
use haier_protocol.Circular.Append.{Appends, reserve_lem, reserve-tail}
use haier_protocol.Circular.Remove.{Drops, drop_lem}
use haier_protocol.Stream.{ProtocolStream}
use haier_protocol.Transport.State.{Transport, drop_bytes}
use haier_protocol.Transport.Io.{make_space, read_into, read_twice, read_data}
use haier_protocol.Transport.Total.{IsReady}

module _ (stream : ProtocolStream) where
  open stream use {State, available, read_array, unread}

  make_space_lem :
      (t : Transport) (count : ℕ)
      → IsReady t
      → count ≤ t.buffer.capacity
      → let t' = make_space stream t count in
        IsReady t'
        × Drops t.buffer t'.buffer (count - get_space t.buffer)
        × (count ≤ t'.buffer.capacity - get_size t'.buffer)
        × (t'.incoming_queue ≡ t.incoming_queue)
  unfolding make_space
  make_space_lem t count r h =
      let space = get_space_lem r.valid in
      let cap = get_size-le r.valid in
      elim (Bool-cases (ltb (get_space t.buffer) count)) [
        | inl tight ↦
            let (n, drops) = drop_lem (count - get_space t.buffer) r.valid in
            let dropped : Drops t.buffer (drop_bytes t (count - get_space t.buffer)).buffer
                (count - get_space t.buffer) =
              subst (λ k. Drops t.buffer (drop_bytes t (count - get_space t.buffer)).buffer k)
                (n ∙ omega arith) drops in
            elim (Bool-cases t.frame_start_found) [
              | inl found ↦
                  rw (tight, found)
                    (
                      ground arith,
                      dropped,
                      omega (arith, dropped.size, dropped.same_capacity),
                      refl,
                    )
              | inr searching ↦
                  rw (tight, searching)
                    (
                      ground arith,
                      dropped,
                      omega (arith, dropped.size, dropped.same_capacity),
                      refl,
                    )
            ]
        | inr roomy ↦
            let enough : count ≤ get_space t.buffer = ground (arith, roomy) in
            let none : count - get_space t.buffer ≡ 0 = omega arith in
            rw (roomy, none)
              (
                r,
                record { valid = r.valid; same_capacity = refl; size = omega arith; bytes = refl },
                omega arith,
                refl,
              )
      ]

  -- One `reserve` and read, where there are enough bytes to read and enough space for them.
  read_into_lem :
      (s : State) (t : Transport) (size : ℕ)
      → IsReady t
      → size ≤ t.buffer.capacity - get_size t.buffer
      → size ≤ length (unread s)
      → let (s', t', n) = read_into stream s t size in
        (n ≡ min size (t.buffer.capacity - t.buffer.tail))
        × IsReady t'
        × Appends t.buffer t'.buffer (take n (unread s))
        × (unread s' ≡ drop n (unread s))
        × (t'.incoming_queue ≡ t.incoming_queue)
        × (t'.buffer.tail ≡ (t.buffer.tail + n) % t.buffer.capacity)
  unfolding read_into
  read_into_lem s t size r h enough =
      let got = reserve t.buffer size in
      let n = got.2 in
      let read = read_array s n in
      let (same, appends) = reserve_lem size read.1 r.valid h in
      let (bytes, rest) = stream.read_array_lem s n in
      let all : length read.1 ≡ n = ap length bytes ∙ (length-take n (unread s) ∙ omega arith) in
      let d = appends all in
      (
        all ∙ same,
        record {
          valid = d.valid;
          sep_le = r.sep_le;
          searching = r.searching;
          incomplete = r.incomplete;
        },
        subst (Appends t.buffer (store got.0 got.1 read.1))
            (bytes ∙ ap (λ k. take k (unread s)) (sym all)) d,
        rest ∙ ap (λ k. drop k (unread s)) (sym all),
        refl,
        reserve-tail size r.valid h ∙ ap (λ k. (t.buffer.tail + k) % t.buffer.capacity) (sym all),
      )

  -- The first `n` bytes of the stream were moved behind those of the buffer.
  pub record Moves (s : State) (t : Transport) (s' : State) (t' : Transport) (n : ℕ) : Type 0 where
    pub ready : IsReady t'
    pub appends : Appends t.buffer t'.buffer (take n (unread s))
    pub left : unread s' ≡ drop n (unread s)
    pub queue : t'.incoming_queue ≡ t.incoming_queue

  Moves-trans :
      {s s' s'' : State} {t t' t'' : Transport} (n m : ℕ)
      → Moves s t s' t' n
      → Moves s' t' s'' t'' m
      → Moves s t s'' t'' (n + m)
  Moves-trans {s} {s'} {s''} {t} {t'} {t''} n m a b =
      let d = a.appends in
      let d' = b.appends in
      let taken : take (n + m) (unread s) ≡ take n (unread s) ++ take m (unread s') =
        take-add n m (unread s) ∙ ap (λ l. take n (unread s) ++ take m l) (sym a.left) in
      record {
        ready = b.ready;
        appends = record {
          valid = d'.valid;
          same_capacity = d'.same_capacity ∙ d.same_capacity;
          size = omega (
            arith,
            d.size,
            d'.size,
            ap length taken,
            length-append (take n (unread s)) (take m (unread s')),
          );
          bytes =
              d'.bytes
              ∙ (ap (λ l. l ++ take m (unread s')) d.bytes
                  ∙ (append_assoc (contents t.buffer) (take n (unread s)) (take m (unread s'))
                      ∙ ap (λ l. contents t.buffer ++ l) (sym taken)));
        };
        left = b.left ∙ (ap (λ l. drop m l) a.left ∙ sym (drop-add n m (unread s)));
        queue = b.queue ∙ a.queue;
      }

  wrapped : (cap tail n : ℕ) → 0 < cap → tail + n ≡ cap → (tail + n) % cap ≡ 0
  wrapped cap tail n h e = ap (λ k. k % cap) e ∙ mod_self cap

  -- A second `reserve` takes what the first one left at the end of the storage.
  read_twice_lem :
      (s : State) (t : Transport) (count : ℕ)
      → IsReady t
      → count ≤ t.buffer.capacity - get_size t.buffer
      → count ≤ length (unread s)
      → let (s', t', n) = read_twice stream s t count in (n ≡ count) × Moves s t s' t' count
  unfolding read_twice
  read_twice_lem s t count r h enough =
      let first = read_into stream s t count in
      let (n1, r1, d1, left1, q1, tail1) = read_into_lem s t count r h enough in
      let moved1 : Moves s t first.0 first.1 first.2 = record {
        ready = r1;
        appends = d1;
        left = left1;
        queue = q1;
      } in
      elim (Bool-cases (ltb first.2 count)) [
        | inl more ↦
            let short : first.2 < count = ground (arith, more) in
            let rest = count - first.2 in
            let whole : first.2 + rest ≡ count = omega arith in
            let cap = get_size-le r.valid in
            let len : length (take first.2 (unread s)) ≡ first.2 =
              length-take first.2 (unread s) ∙ omega arith in
            let start : first.1.buffer.tail ≡ 0 =
              tail1
              ∙ wrapped t.buffer.capacity t.buffer.tail first.2 (omega (arith, r.valid.large))
                  (omega (arith, r.valid.tail_in)) in
            let second = read_into stream first.0 first.1 rest in
            let (n2, r2, d2, left2, q2, _) =
              read_into_lem first.0 first.1 rest r1 (omega (arith, d1.size, d1.same_capacity))
                (omega (arith, ap length left1, length-drop first.2 (unread s))) in
            let all : second.2 ≡ rest = n2 ∙ omega (arith, d1.size, d1.same_capacity) in
            let moved2 : Moves first.0 first.1 second.0 second.1 second.2 = record {
              ready = r2;
              appends = d2;
              left = left2;
              queue = q2;
            } in
            rw more (
              ap (λ k. first.2 + k) all ∙ whole,
              subst (Moves s t second.0 second.1) (ap (λ k. first.2 + k) all ∙ whole)
                  (Moves-trans first.2 second.2 moved1 moved2),
            )
        | inr done ↦
            let all : first.2 ≡ count = ground (arith, done) in
            rw done (all, subst (Moves s t first.0 first.1) all moved1)
      ]

  -- `read_data` moves all that the stream has, but no more than the buffer's capacity, behind the
  -- bytes in the buffer, of which it drops only as many as there is no space for. It returns how many
  -- were moved, keeps the queue, and leaves a handler between two calls.
  pub read_data_lem :
      (s : State) (t : Transport)
      → IsReady t
      → let (s', t', n) = read_data stream s t in
        (n ≡ min t.buffer.capacity (length (unread s)))
        × IsReady t'
        × (contents t'.buffer
            ≡ drop (n - get_space t.buffer) (contents t.buffer) ++ take n (unread s))
        × (unread s' ≡ drop n (unread s))
        × (t'.incoming_queue ≡ t.incoming_queue)
  unfolding read_data
  read_data_lem s t r =
      let have = stream.available_lem s in
      let count = if leb t.buffer.capacity (available s) then t.buffer.capacity else available s in
      let least : count ≡ min t.buffer.capacity (length (unread s)) = ground (arith, have) in
      let (ready, drops, room, queue) = make_space_lem t count r (omega arith) in
      let t1 = make_space stream t count in
      let (all, moves) = read_twice_lem s t1 count ready room (omega arith) in
      let n = (read_twice stream s t1 count).2 in
      (
        all ∙ least,
        moves.ready,
        moves.appends.bytes
            ∙ ap₂ (λ l m. l ++ take m (unread s))
                (drops.bytes
                  ∙ ap (λ k. drop (k - get_space t.buffer) (contents t.buffer)) (sym all))
                (sym all),
        moves.left ∙ ap (λ k. drop k (unread s)) (sym all),
        moves.queue ∙ queue,
      )
