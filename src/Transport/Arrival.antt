-- ===== src/Transport/Arrival.antt =====
-- protocol_transport.cpp, `process_data` on bytes that arrive in parts.
use haier_protocol.Prelude.{
  ℕ, zero, suc, ◌+◌, ◌-◌, ◌≤◌, ◌<◌, ◌≡◌, inl, inr, refl, sym, ap, ap₂, subst, ◌∙◌, Bool, true,
  false, List, [], ◌∷◌, ◌++◌, append-nil, arith, length, length-append, ltb, ltb-false,
  if◌then◌else◌, if-both, Option, none, some, Bool-cases, size_sub,
}
use mathlib.Core.Option.{some-injective, none-ne-some}
use haier_protocol.Prelude
use haier_protocol.Circular.{IsValid, get_size}
use haier_protocol.Circular.Validity.{get_size-le, is_empty_iff_size}
use haier_protocol.Circular.Contents.{contents, length-contents}
use haier_protocol.Circular.Remove.{drop_lem}
use haier_protocol.Transport.State.{Transport}
use haier_protocol.Transport.Scan.{Scan, round, scan, scan_fuel, scan_all, finish, process_data}
use haier_protocol.Transport.Invariant.{Inv, round-Progress}
use haier_protocol.Transport.Total.{scan_stops, expire_never}
use haier_protocol.Transport.Walk.{scan_step}
use haier_protocol.Transport.Alike.{Follows}
use haier_protocol.Transport.Hunted.{unpassed}
use haier_protocol.Transport.Rounds.{length-unpassed, also_more, round-Follows}

-- The loop goes on where the bytes at hand have ended, if there are more.
pub record Goes (more : List ℕ) (s' t : Scan) : Type 0 where
  pub rounds : ℕ
  pub reached : Scan
  pub inv : Inv 0 t
  pub inv' : Inv 0 reached
  pub follows : Follows more t reached
  pub ended : t.buf_size ≤ t.pos
  pub runs : (fuel : ℕ) → scan (rounds + fuel) s' ≡ scan fuel reached

pub scan-Goes :
    (more : List ℕ) (fuel : ℕ) (s s' t : Scan)
    → Inv 0 s
    → Inv 0 s'
    → Follows more s s'
    → scan fuel s ≡ some t
    → Goes more s' t
unfolding scan
scan-Goes more zero s s' t v v' f e = absurd (none-ne-some t e)
scan-Goes more (suc fuel) s s' t v v' f e = elim (Bool-cases (ltb s.pos s.buf_size)) [
  | inl going ↦
      let h : s.pos < s.buf_size = ground (arith, going) in
      let h' = also_more more s s' v v' f h in
      let g =
        scan-Goes more fuel (round s) (round s') t (round-Progress s v h).inv
          (round-Progress s' v' h').inv (round-Follows more s s' v v' f h)
          (sym (scan_step fuel s h) ∙ e) in
      record {
        rounds = suc g.rounds;
        reached = g.reached;
        inv = g.inv;
        inv' = g.inv';
        follows = g.follows;
        ended = g.ended;
        runs = λ fuel'.
            ap (λ n. scan n s') {y = suc (g.rounds + fuel')} (omega arith)
            ∙ scan_step (g.rounds + fuel') s' h'
            ∙ g.runs fuel';
      }
  | inr done ↦
      let same : s ≡ t =
        some-injective s t (sym (scan_stops (suc fuel) s (omega arith) done) ∙ e) in
      record {
        rounds = 0;
        reached = s';
        inv = subst (Inv 0) same v;
        inv' = v';
        follows = subst (λ r. Follows more r s') same f;
        ended = subst (λ (r : Scan). r.buf_size ≤ r.pos) same (ground (arith, done));
        runs = λ fuel'. ap (λ n. scan n s') (omega arith);
      }
]

-- More fuel changes nothing.
scan_more : (fuel j : ℕ) (s t : Scan) → scan fuel s ≡ some t → scan (fuel + j) s ≡ some t
unfolding scan
scan_more zero j s t e = absurd (none-ne-some t e)
scan_more (suc fuel) j s t e = elim (Bool-cases (ltb s.pos s.buf_size)) [
  | inl going ↦
      let h : s.pos < s.buf_size = ground (arith, going) in
      ap (λ n. scan n s) {y = suc (fuel + j)} (omega arith)
      ∙ scan_step (fuel + j) s h
      ∙ scan_more fuel j (round s) t (sym (scan_step fuel s h) ∙ e)
  | inr done ↦
      scan_stops (suc fuel + j) s (omega arith) done
      ∙ sym (scan_stops (suc fuel) s (omega arith) done)
      ∙ e
]

pub scan_unique : (a b : ℕ) (s t t' : Scan) → scan a s ≡ some t → scan b s ≡ some t' → t ≡ t'
scan_unique a b s t t' e e' =
    some-injective t t'
      (sym (scan_more a b s t e) ∙ ap (λ n. scan n s) (omega arith) ∙ scan_more b a s t' e')

-- What is left once the garbage is dropped.
pub record Finished (s : Scan) (t : Transport) : Type 0 where
  pub valid : IsValid t.buffer
  pub bytes : contents t.buffer ≡ unpassed s
  pub place : t.pos ≡ s.pos - s.bytes_to_drop
  pub same_sep : t.sep_count ≡ s.sep_count
  pub same_found : t.frame_start_found ≡ s.frame_start_found
  pub same_frame : t.current_frame ≡ s.current_frame
  pub same_start : t.frame_start ≡ s.handler.frame_start
  pub same_queue : t.incoming_queue ≡ s.handler.incoming_queue

pub finish-Finished : (s : Scan) → Inv 0 s → Finished s (finish s)
finish-Finished s v =
    let cap = get_size-le v.valid in
    if-both (Finished s) (ltb 0 s.bytes_to_drop)
      (λ garbage.
        let (count, drops) = drop_lem s.bytes_to_drop v.valid in
        record {
          valid = drops.valid;
          bytes =
              drops.bytes
              ∙ ap (λ n. Prelude.drop n (contents s.buffer))
                  (count ∙ omega (arith, v.drop_le, v.pos_le, v.sized));
          place = omega (arith, v.drop_le, v.pos_le, v.sized, cap, v.valid.small);
          same_sep = refl;
          same_found = refl;
          same_frame = refl;
          same_start = refl;
          same_queue = refl;
        })
      (λ clean.
        let none_passed : s.bytes_to_drop ≡ 0 = ground (arith, clean) in
        record {
          valid = v.valid;
          bytes = ap (λ n. Prelude.drop n (contents s.buffer)) (sym none_passed);
          place = omega (arith, none_passed);
          same_sep = refl;
          same_found = refl;
          same_frame = refl;
          same_start = refl;
          same_queue = refl;
        })

abbrev pub started : Transport → Scan
started t = record { handler = t; buf_size = get_size t.buffer; bytes_to_drop = 0 }

-- `process_data` is its loop, also where the buffer is empty.
process_data-scan : (now : ℕ) (t : Transport) → IsValid t.buffer → process_data now t ≡ scan_all t
unfolding process_data scan_all
process_data-scan now t v =
    ap (λ u. if u.buffer.is_empty then some u else scan_all u) (expire_never now t)
    ∙ if-both (λ r. r ≡ scan_all t) t.buffer.is_empty
        (λ empty.
          let zero_size = (is_empty_iff_size v).0 empty in
          sym (
            ap (λ r. elim r [ none ↦ none | some s ↦ some (finish s) ])
              (scan_stops (scan_fuel (get_size t.buffer)) (started t) (omega arith)
                (ltb-false t.pos (get_size t.buffer) (omega (arith, zero_size))))))
        (λ _. refl)

-- The end of the loop behind a result.
finished :
    (r : Option Scan) (t : Transport)
    → elim r [ none ↦ none | some s ↦ some (finish s) ] ≡ some t
    → (s : Scan) × (r ≡ some s) × (finish s ≡ t)
finished none t e = absurd (none-ne-some t e)
finished (some s) t e = (s, refl, some-injective (finish s) t e)

pub scanned :
    (now : ℕ) (t t1 : Transport)
    → IsValid t.buffer
    → process_data now t ≡ some t1
    → (s : Scan) × (scan (scan_fuel (get_size t.buffer)) (started t) ≡ some s) × (finish s ≡ t1)
unfolding scan_all
scanned now t t1 v e =
    finished (scan (scan_fuel (get_size t.buffer)) (started t)) t1
      (sym (process_data-scan now t v) ∙ e)

scan-le :
    (fuel : ℕ) (s t : Scan) → Inv 0 s → scan fuel s ≡ some t → (t.buf_size ≤ s.buf_size) × Inv 0 t
unfolding scan
scan-le zero s t v e = absurd (none-ne-some t e)
scan-le (suc fuel) s t v e = elim (Bool-cases (ltb s.pos s.buf_size)) [
  | inl going ↦
      let h : s.pos < s.buf_size = ground (arith, going) in
      let p = round-Progress s v h in
      let (le, w) = scan-le fuel (round s) t p.inv (sym (scan_step fuel s h) ∙ e) in
      (omega (arith, le, p.no_more), w)
  | inr done ↦
      subst (λ (r : Scan). (r.buf_size ≤ s.buf_size) × Inv 0 r)
        (some-injective s t (sym (scan_stops (suc fuel) s (omega arith) done) ∙ e)) (omega arith, v)
]

-- `process_data` never adds to the buffer.
pub process_data-le :
    (now : ℕ) (t t1 : Transport)
    → Inv 0 (started t)
    → process_data now t ≡ some t1
    → get_size t1.buffer ≤ get_size t.buffer
process_data-le now t t1 v e =
    let (s, run, ends) = scanned now t t1 v.valid e in
    let (le, w) = scan-le _ (started t) s v run in
    let d = finish-Finished s w in
    let size : get_size (finish s).buffer ≡ get_size s.buffer - s.bytes_to_drop =
      sym (length-contents (finish s).buffer) ∙ ap length d.bytes ∙ length-unpassed s in
    subst (λ (u : Transport). get_size u.buffer ≤ get_size t.buffer) ends
      (omega (arith, size, le, w.sized))
