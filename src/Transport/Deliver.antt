-- ===== src/Transport/Deliver.antt =====
-- protocol_transport.cpp, `read_data` and then `process_data`, as `loop` calls them: from the bytes of
-- a stream to the queue of frames.
use haier_protocol.Prelude.{
  ℕ, ◌-◌, ◌≤◌, ◌≡◌, refl, ap, ap₂, ◌∙◌, List, [], ◌++◌, map, arith, length, drop, take_all,
  drop_all, empty-length, some, All, if-both, ltb, leb, if◌then◌else◌,
}
use haier_protocol.Circular.{Circular, get_size, get_space, reserve, store}
use haier_protocol.Circular.Contents.{contents, length-contents}
use haier_protocol.Frame.Types.{HaierFrame}
use haier_protocol.Stream.{ProtocolStream}
use haier_protocol.Transport.State.{Transport, drop_bytes}
use haier_protocol.Transport.Scan.{process_data}
use haier_protocol.Transport.Io.{make_space, read_into, read_twice, read_data}
use haier_protocol.Transport.Total.{IsReady}
use haier_protocol.Transport.Taken.{IsSent, stamped, wires}
use haier_protocol.Transport.Frames.{AtRest, process_data_frames}
use haier_protocol.Transport.Feed.{read_data_lem}

abbrev with_buffer : Circular → Transport → Transport
with_buffer c t = record t { buffer = c }

module _ (stream : ProtocolStream) where
  open stream use {State, available, read_array, unread}

  -- `read_data` keeps a handler at rest, and its clock.
  abbrev Rests : ℕ → Transport → Type 0
  Rests start t = AtRest t × (t.frame_start ≡ start)

  read_into-Rests :
      (start : ℕ) (s : State) (t : Transport) (n : ℕ)
      → Rests start t
      → Rests start (read_into stream s t n).1
  unfolding read_into
  read_into-Rests start s t n (rest, time) = (
    ap
        (with_buffer (
          store (reserve t.buffer n).0 (reserve t.buffer n).1
            (read_array s (reserve t.buffer n).2).1))
        rest,
    time,
  )

  read_twice-Rests :
      (start : ℕ) (s : State) (t : Transport) (n : ℕ)
      → Rests start t
      → Rests start (read_twice stream s t n).1
  unfolding read_twice
  read_twice-Rests start s t n r =
      let first = read_into stream s t n in
      let r1 = read_into-Rests start s t n r in
      if-both {A = State × Transport × ℕ} (λ q. Rests start q.1) (ltb first.2 n)
        (λ _. read_into-Rests start first.0 first.1 (n - first.2) r1) (λ _. r1)

  make_space-Rests :
      (start : ℕ) (t : Transport) (n : ℕ) → Rests start t → Rests start (make_space stream t n)
  unfolding make_space
  make_space-Rests start t n (rest, time) =
      let dropped = drop_bytes t (n - get_space t.buffer) in
      let still = ap (with_buffer dropped.buffer) rest in
      if-both (Rests start) (ltb (get_space t.buffer) n)
        (λ _. if-both (Rests start) t.frame_start_found (λ _. (refl, time)) (λ _. (still, time)))
        (λ _. (rest, time))

  read_data-Rests :
      (start : ℕ) (s : State) (t : Transport) → Rests start t → Rests start (read_data stream s t).1
  unfolding read_data
  read_data-Rests start s t r =
      let n = if leb t.buffer.capacity (available s) then t.buffer.capacity else available s in
      read_twice-Rests start s (make_space stream t n) n (make_space-Rests start t n r)

  -- What `read_data` and then `process_data` make of a stream that holds frames back to back, and
  -- nothing else: on a handler at rest with an empty buffer, which has the capacity for their bytes,
  -- they read all of the stream, put exactly these frames in the queue, in order, and leave the handler
  -- at rest with an empty buffer. The frames are any that the constructor makes from at most 233 bytes.
  pub read_data-process_data :
      (now : ℕ) (s : State) (t : Transport) (fs : List HaierFrame)
      → IsReady t
      → AtRest t
      → get_size t.buffer ≡ 0
      → All IsSent fs
      → unread s ≡ wires fs
      → length (wires fs) ≤ t.buffer.capacity
      → let (s', t1, n) = read_data stream s t in
        (t' : Transport) × (process_data now t1 ≡ some t')
        × (t'.incoming_queue ≡ t.incoming_queue ++ map (stamped t.frame_start) fs)
        × (unread s' ≡ [])
        × (get_size t'.buffer ≡ 0)
        × AtRest t'
  read_data-process_data now s t fs ready rest empty sent held fits =
      let read = read_data stream s t in
      let (count, ready1, bytes, left, queue) = read_data_lem stream s t ready in
      let (rest1, time) = read_data-Rests t.frame_start s t (rest, refl) in
      let len = ap length held in
      let all : length (unread s) ≤ read.2 = omega arith in
      let none_before : contents t.buffer ≡ [] =
        empty-length (contents t.buffer) (length-contents t.buffer ∙ empty) in
      let now_held : contents read.1.buffer ≡ wires fs =
        bytes
        ∙ (ap₂ (λ l m. l ++ m)
              (ap (drop (read.2 - get_space t.buffer)) none_before
                ∙ drop_all (read.2 - get_space t.buffer) [] (omega arith))
              (take_all read.2 (unread s) all)
            ∙ held) in
      let (t', run, queued, drained, rest2) =
        process_data_frames now read.1 fs rest1 ready1.valid sent now_held in
      (
        t',
        run,
        queued ∙ ap₂ (λ q start. q ++ map (stamped start) fs) queue time,
        left ∙ drop_all read.2 (unread s) all,
        drained,
        rest2,
      )
