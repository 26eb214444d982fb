-- ===== src/Transport/Poll.antt =====
-- protocol_transport.cpp, `read_data` and then `process_data`, turn by turn, on a stream whose bytes
-- come in parts.
pub mod Tests
use haier_protocol.Prelude.{
  ℕ, ◌+◌, ◌*◌, ◌-◌, ◌≤◌, ◌≡◌, refl, sym, ap, ap₂, subst, ◌∙◌, List, [], ◌∷◌, ◌++◌, arith, length,
  length-append, take_all, drop, Option, none, some, All, ltb, leb, if◌then◌else◌, if-both,
  if_false, ltb-false, size_mod,
}
use haier_protocol.Circular.{Circular, get_size, get_space, reserve, store}
use haier_protocol.Circular.Validity.{get_space_lem}
use haier_protocol.Circular.Contents.{contents}
use haier_protocol.Stream.{ProtocolStream}
use haier_protocol.Transport.State.{Transport}
use haier_protocol.Transport.Scan.{process_data}
use haier_protocol.Transport.Io.{make_space, read_into, read_twice, read_data}
use haier_protocol.Transport.Total.{process_data_total}
use haier_protocol.Transport.Noise.{IsNoise, trailing}
use haier_protocol.Transport.Line.{Piece, line, frames_of, IsPiece}
use haier_protocol.Transport.Frames.{AtRest, Recovers}
use haier_protocol.Transport.Feed.{read_data_lem}
use haier_protocol.Transport.Capacity.{process_data-capacity, read_data-capacity}
use haier_protocol.Transport.Extend.{get_size-Extends}
use haier_protocol.Transport.Alike.{Alike}
use haier_protocol.Transport.Arrival.{process_data-le}
use haier_protocol.Transport.InParts.{
  IsSettled, together, Arrives, no_part, next_part, Alike-IsReady, started-Inv, processed-IsSettled,
}
use haier_protocol.Transport.Cut.{Arrives-Recovers}

abbrev with_buffer : Circular → Transport → Transport
with_buffer c t = record t { buffer = c }

module _ (stream : ProtocolStream) where
  open stream use {State, available, read_array, unread}

  -- The second handler has the first one's state but for its buffer.
  abbrev SameBut : Transport → Transport → Type 0
  SameBut t u = u ≡ with_buffer u.buffer t

  read_into-SameBut :
      (s : State) (t u : Transport) (n : ℕ) → SameBut t u → SameBut t (read_into stream s u n).1
  unfolding read_into
  read_into-SameBut s t u n e =
      ap
        (with_buffer (
          store (reserve u.buffer n).0 (reserve u.buffer n).1
            (read_array s (reserve u.buffer n).2).1))
        e

  read_twice-SameBut :
      (s : State) (t u : Transport) (n : ℕ) → SameBut t u → SameBut t (read_twice stream s u n).1
  unfolding read_twice
  read_twice-SameBut s t u n e =
      let first = read_into stream s u n in
      let e1 = read_into-SameBut s t u n e in
      if-both {A = State × Transport × ℕ} (λ q. SameBut t q.1) (ltb first.2 n)
        (λ _. read_into-SameBut first.0 t first.1 (n - first.2) e1) (λ _. e1)

  read_data-SameBut :
      (s : State) (t : Transport)
      → length (unread s) ≤ get_space t.buffer
      → SameBut t (read_data stream s t).1
  unfolding read_data make_space
  read_data-SameBut s t room =
      let n = if leb t.buffer.capacity (available s) then t.buffer.capacity else available s in
      let few : n ≤ get_space t.buffer = ground (arith, stream.available_lem s, room) in
      read_twice-SameBut s t (make_space stream t n) n
        (subst (SameBut t) (sym (if_false _ _ (ltb-false (get_space t.buffer) n few))) refl)

  -- Where there is room for all of them, `read_data` puts the stream's bytes behind the others.
  read_data-Alike :
      (s : State) (t : Transport)
      → IsSettled t
      → length (unread s) ≤ get_space t.buffer
      → Alike (unread s) t (read_data stream s t).1
  read_data-Alike s t r room =
      let (count, ready, bytes, _, _) = read_data_lem stream s t r.ready in
      let n = (read_data stream s t).2 in
      let e = read_data-SameBut s t room in
      let space = get_space_lem r.ready.valid in
      let all : length (unread s) ≤ n = omega (arith, count, room, space) in
      record {
        rings = record {
          valid = r.ready.valid;
          valid' = ready.valid;
          bytes =
              bytes
              ∙ ap₂ (λ k l. drop k (contents t.buffer) ++ l) {y = 0} (omega (arith, count, room))
                  (take_all n (unread s) all);
        };
        same_pos = ap (λ (u : Transport). u.pos) e;
        same_sep = ap (λ (u : Transport). u.sep_count) e;
        same_found = ap (λ (u : Transport). u.frame_start_found) e;
        same_frame = ap (λ (u : Transport). u.current_frame) e;
        same_start = ap (λ (u : Transport). u.frame_start) e;
        same_queue = ap (λ (u : Transport). u.incoming_queue) e;
      }

  -- A turn: its time, and the stream as it is then.
  abbrev pub Poll : Type 0
  Poll = ℕ × State

  -- What `loop` does first in each of its turns.
  unfoldable pub poll_all : List Poll → Transport → Option Transport
  poll_all [] t = some t
  poll_all ((now, s) ∷ polls) t = elim (process_data now (read_data stream s t).1) [
    | none ↦ none
    | some t1 ↦ poll_all polls t1
  ]

  abbrev pub parts_of : List Poll → List (List ℕ)
  parts_of [] = []
  parts_of ((now, s) ∷ polls) = unread s ∷ parts_of polls

  -- There is room in the buffer in each turn.
  abbrev pub HasRoom : List Poll → Transport → Type 0
  HasRoom [] t = Unit
  HasRoom ((now, s) ∷ polls) t =
      (length (unread s) ≤ get_space t.buffer)
      × ((t1 : Transport) → process_data now (read_data stream s t).1 ≡ some t1 → HasRoom polls t1)

  -- The capacity for all the bytes is room enough.
  pub capacity-HasRoom :
      (polls : List Poll) (t : Transport)
      → IsSettled t
      → get_size t.buffer + length (together (parts_of polls)) ≤ t.buffer.capacity
      → HasRoom polls t
  capacity-HasRoom [] t r fits = tt
  capacity-HasRoom ((now, s) ∷ polls) t r fits =
      let part = unread s in
      let bytes = length-append part (together (parts_of polls)) in
      let room : length part ≤ get_space t.buffer =
        omega (arith, get_space_lem r.ready.valid, fits, bytes) in
      let u = (read_data stream s t).1 in
      let a = read_data-Alike s t r room in
      (
        room,
        λ t1 e.
            let less = process_data-le now u t1 (started-Inv part t u r a) e in
            let size = get_size-Extends part t.buffer u.buffer a.rings in
            let same = process_data-capacity now u t1 e in
            let kept = read_data-capacity stream s t in
            capacity-HasRoom polls t1 (processed-IsSettled now part t u t1 r a e)
              (omega (arith, less, size, same, kept, fits, bytes)),
      )

  pub poll_all-Arrives :
      (polls : List Poll) (t : Transport)
      → IsSettled t
      → HasRoom polls t
      → (w : Transport) × (poll_all polls t ≡ some w) × Arrives (parts_of polls) t w
  unfolding poll_all
  poll_all-Arrives [] t r room = (t, refl, no_part)
  poll_all-Arrives ((now, s) ∷ polls) t r (room, later) =
      let part = unread s in
      let u = (read_data stream s t).1 in
      let a = read_data-Alike s t r room in
      let (t1, run, _, _) = process_data_total now u (Alike-IsReady part t u r a) in
      let (w, runs, arrives) =
        poll_all-Arrives polls t1 (processed-IsSettled now part t u t1 r a run) (later t1 run) in
      (
        w,
        ap (λ r. elim r [ none ↦ none | some t1 ↦ poll_all polls t1 ]) run ∙ runs,
        next_part now a run arrives,
      )

  -- Frames are recovered in whatever parts the stream gives their bytes. At a handler at rest with an
  -- empty buffer, let `read_data` and `process_data` run in turns, at any times, on a stream that in each
  -- turn has the next part of any sequence of pieces and then noise, cut anywhere, for which the buffer
  -- has room. Then all the calls end, exactly the frames among the pieces that are as they were sent
  -- have been queued, in order, and the handler waits for the start of a frame; of the bytes it keeps
  -- only the one or two 0xFF that the noise ends in. All the parts together are at most 2^31 bytes.
  pub poll_all-Recovers :
      (polls : List Poll) (t : Transport) (ps : List Piece) (tail : List ℕ)
      → IsSettled t
      → AtRest t
      → All IsPiece ps
      → IsNoise tail
      → together (parts_of polls) ≡ line ps ++ tail
      → 2 * length (together (parts_of polls)) ≤ size_mod
      → HasRoom polls t
      → (w : Transport) × (poll_all polls t ≡ some w)
        × Recovers t w (frames_of ps) (trailing 0 tail)
  poll_all-Recovers polls t ps tail r rest pieces quiet e small room =
      let (w, runs, arrives) = poll_all-Arrives polls t r room in
      (w, runs, Arrives-Recovers (parts_of polls) t w ps tail r rest pieces quiet arrives e small)
