-- ===== src/Transport/InParts.antt =====
-- protocol_transport.cpp: `process_data` after each part of what arrives, and after all of it.
use mathlib.Core.Option.{some-injective}
use haier_protocol.Prelude.{
  ℕ, ◌+◌, ◌≤◌, ◌≡◌, inl, inr, refl, sym, ap, subst, ◌∙◌, List, [], ◌∷◌, ◌++◌, append-nil,
  append_assoc, arith, length, ltb-false, some,
}
use haier_protocol.Circular.{get_size}
use haier_protocol.Circular.Contents.{contents, length-contents}
use haier_protocol.Transport.State.{Transport}
use haier_protocol.Transport.Scan.{Scan, scan, finish, process_data}
use haier_protocol.Transport.Invariant.{Inv}
use haier_protocol.Transport.Total.{IsReady, scan_stops, process_data_total}
use haier_protocol.Transport.Extend.{get_size-Extends}
use haier_protocol.Transport.Alike.{Alike, Follows, Alike-Follows}
use haier_protocol.Transport.Hunted.{unpassed}
use haier_protocol.Transport.Rounds.{length-unpassed}
use haier_protocol.Transport.Arrival.{
  scan-Goes, scan_unique, Finished, finish-Finished, started, scanned,
}

-- A handler between two calls that has looked at every byte, as `process_data` leaves it.
pub record IsSettled (t : Transport) : Type 0 where
  pub ready : IsReady t
  pub looked : t.pos ≡ get_size t.buffer

abbrev pub together : List (List ℕ) → List ℕ
together [] = []
together (part ∷ parts) = part ++ together parts

-- Parts arrive at a handler one by one, and `process_data` runs after each.
pub data Arrives : List (List ℕ) → Transport → Transport → Type 0 where
  no_part : {t : Transport} → Arrives [] t t
  next_part :
      {t u t1 w : Transport} {part : List ℕ} {parts : List (List ℕ)} (now : ℕ)
      → Alike part t u
      → process_data now u ≡ some t1
      → Arrives parts t1 w
      → Arrives (part ∷ parts) t w

pub started-Inv :
    (more : List ℕ) (t u : Transport) → IsSettled t → Alike more t u → Inv 0 (started u)
started-Inv more t u r a =
    let size = get_size-Extends more t.buffer u.buffer a.rings in
    record {
      valid = a.rings.valid';
      sized = refl;
      pos_le = omega (arith, a.same_pos, r.looked, size);
      drop_le = omega arith;
      sep_le = omega (arith, a.same_pos, a.same_sep, r.ready.sep_le);
      searching = λ e. a.same_sep ∙ r.ready.searching (sym a.same_found ∙ e);
      incomplete = λ e. r.ready.incomplete (ap (λ f. f.status) (sym a.same_frame) ∙ e);
      no_garbage = λ _. refl;
    }

pub Alike-IsReady : (more : List ℕ) (t u : Transport) → IsSettled t → Alike more t u → IsReady u
Alike-IsReady more t u r a =
    let v = started-Inv more t u r a in
    record {
      valid = v.valid;
      sep_le = omega (arith, v.sep_le);
      searching = v.searching;
      incomplete = v.incomplete;
    }

pub processed-IsSettled :
    (now : ℕ) (more : List ℕ) (t u t1 : Transport)
    → IsSettled t
    → Alike more t u
    → process_data now u ≡ some t1
    → IsSettled t1
processed-IsSettled now more t u t1 r a e =
    let (t2, run, ready, looked) = process_data_total now u (Alike-IsReady more t u r a) in
    let same : t2 ≡ t1 = some-injective t2 t1 (sym run ∙ e) in
    subst IsSettled same (record {
      ready = ready;
      looked = elim looked [
        | inl all ↦ all
        | inr (behind, unchanged) ↦
            let size = get_size-Extends more t.buffer u.buffer a.rings in
            ap (λ (w : Transport). w.pos) unchanged
            ∙ omega (arith, behind, a.same_pos, r.looked, size)
            ∙ ap (λ (w : Transport). get_size w.buffer) (sym unchanged)
      ];
    })

-- The loop over all the bytes, from a point at which it has passed a part.
record Passes (rest : List ℕ) (w : Transport) (s : Scan) : Type 0 where
  rounds : ℕ
  reached : Scan
  inv : Inv 0 reached
  follows : Follows rest (started w) reached
  runs : (fuel : ℕ) → scan (rounds + fuel) s ≡ scan fuel reached

part-Passes :
    (now : ℕ) (part rest : List ℕ) (t u t1 : Transport) (s : Scan)
    → IsSettled t
    → Alike part t u
    → process_data now u ≡ some t1
    → Inv 0 s
    → Follows (part ++ rest) (started t) s
    → Passes rest t1 s
part-Passes now part rest t u t1 s r a e v f =
    let (end, run, ends) = scanned now u t1 a.rings.valid' e in
    let behind : Follows rest (started u) s = record {
      bytes =
          f.bytes
          ∙ sym (append_assoc (contents t.buffer) part rest)
          ∙ ap (λ l. l ++ rest) (sym a.rings.bytes);
      place = omega (arith, f.place, a.same_pos);
      same_sep = f.same_sep ∙ sym a.same_sep;
      same_found = f.same_found ∙ sym a.same_found;
      same_frame = f.same_frame ∙ sym a.same_frame;
      same_start = f.same_start ∙ sym a.same_start;
      same_queue = f.same_queue ∙ sym a.same_queue;
    } in
    let g = scan-Goes rest _ (started u) s end (started-Inv part t u r a) v behind run in
    let d = subst (Finished end) ends (finish-Finished end g.inv) in
    record {
      rounds = g.rounds;
      reached = g.reached;
      inv = g.inv';
      follows = record {
        bytes = g.follows.bytes ∙ ap (λ l. l ++ rest) (sym d.bytes);
        place = omega (arith, g.follows.place, d.place);
        same_sep = g.follows.same_sep ∙ sym d.same_sep;
        same_found = g.follows.same_found ∙ sym d.same_found;
        same_frame = g.follows.same_frame ∙ sym d.same_frame;
        same_start = g.follows.same_start ∙ sym d.same_start;
        same_queue = g.follows.same_queue ∙ sym d.same_queue;
      };
      runs = g.runs;
    }

both-Passes :
    (w : Transport) (s : Scan) (rest : List ℕ) (t1 : Transport) (p : Passes rest t1 s)
    → Passes [] w p.reached
    → Passes [] w s
both-Passes w s rest t1 p q = record {
  rounds = p.rounds + q.rounds;
  reached = q.reached;
  inv = q.inv;
  follows = q.follows;
  runs = λ fuel.
      ap (λ n. scan n s) {x = p.rounds + q.rounds + fuel} {y = p.rounds + (q.rounds + fuel)}
        (omega arith)
      ∙ p.runs (q.rounds + fuel)
      ∙ q.runs fuel;
}

arrives-Passes :
    {parts : List (List ℕ)} {t w : Transport} (s : Scan)
    → IsSettled t
    → Inv 0 s
    → Follows (together parts) (started t) s
    → Arrives parts t w
    → IsSettled w × Passes [] w s
arrives-Passes s r v f no_part = (
  r,
  record {
    rounds = 0;
    reached = s;
    inv = v;
    follows = f;
    runs = λ fuel. ap (λ n. scan n s) (omega arith);
  },
)
arrives-Passes {t = t} {w = w} s r v f
      (next_part {u = u} {t1 = t1} {part = part} {parts = parts} now a e rest) =
    let p = part-Passes now part (together parts) t u t1 s r a e v f in
    let (settled, q) =
      arrives-Passes p.reached (processed-IsSettled now part t u t1 r a e) p.inv p.follows rest in
    (settled, both-Passes w s (together parts) t1 p q)

-- It does not matter in which parts bytes arrive. At a handler that has looked at every byte of its
-- buffer, let parts arrive, with `process_data` after each, at any times. Then a call of `process_data`
-- on the same handler with all their bytes in its buffer ends, and leaves what the parts have left:
-- the same bytes in the buffer, the same queue of frames, and the same state of the search.
pub process_data-Arrives :
    (now : ℕ) (parts : List (List ℕ)) (t w v : Transport)
    → IsSettled t
    → Arrives parts t w
    → Alike (together parts) t v
    → (v' : Transport) × (process_data now v ≡ some v') × Alike [] w v'
process_data-Arrives now parts t w v r arrived a =
    let ready = Alike-IsReady (together parts) t v r a in
    let inv = started-Inv (together parts) t v r a in
    let (v', run, _, _) = process_data_total now v ready in
    let (end, ran, ends) = scanned now v v' a.rings.valid' run in
    let (settled, q) =
      arrives-Passes (started v) r inv
        (Alike-Follows (together parts) (started t) (started v) refl refl a) arrived in
    let none_left : length (unpassed q.reached) ≡ get_size w.buffer =
      ap length (q.follows.bytes ∙ append-nil (contents w.buffer)) ∙ length-contents w.buffer in
    let over : q.reached.buf_size ≤ q.reached.pos = omega (
      arith,
      none_left,
      length-unpassed q.reached,
      q.inv.sized,
      q.inv.drop_le,
      q.inv.pos_le,
      q.follows.place,
      settled.looked,
    ) in
    let last =
      q.runs 1
      ∙ scan_stops 1 q.reached (omega arith) (ltb-false q.reached.pos q.reached.buf_size over) in
    let same : q.reached ≡ end = scan_unique _ _ (started v) q.reached end last ran in
    let d = subst (Finished q.reached) (ap finish same ∙ ends) (finish-Finished q.reached q.inv) in
    (
      v',
      run,
      record {
        rings = record {
          valid = settled.ready.valid;
          valid' = d.valid;
          bytes = d.bytes ∙ q.follows.bytes;
        };
        same_pos = omega (arith, d.place, q.follows.place);
        same_sep = d.same_sep ∙ q.follows.same_sep;
        same_found = d.same_found ∙ q.follows.same_found;
        same_frame = d.same_frame ∙ q.follows.same_frame;
        same_start = d.same_start ∙ q.follows.same_start;
        same_queue = d.same_queue ∙ q.follows.same_queue;
      },
    )
