-- ===== src/Transport/Rounds.antt =====
-- protocol_transport.cpp, any round of `process_data` with more bytes behind those at hand.
use haier_protocol.Prelude.{
  ℕ, zero, suc, ◌+◌, ◌-◌, ◌<◌, ◌≡◌, inl, inr, refl, sym, ap, ap₂, subst, ◌∙◌, Bool, true, false,
  List, [], ◌∷◌, ◌++◌, arith, length, length-append, length-drop, get_or, get_or-append_left, drop,
  if◌then◌else◌, Bool-cases,
}
use haier_protocol.Circular.{get_size, index}
use haier_protocol.Circular.Contents.{contents, length-contents, index_lem}
use haier_protocol.Transport.State.{TimestampedFrame}
use haier_protocol.Frame.Types.{HaierFrame}
use haier_protocol.Transport.Scan.{Scan, advance, hunt, in_frame, round}
use haier_protocol.Transport.Invariant.{Inv}
use haier_protocol.Transport.Extend.{Extends, drop-append_left}
use haier_protocol.Transport.Alike.{Follows, with_ring}
use haier_protocol.Transport.Within.{in_frame-Follows}
use haier_protocol.Transport.Hunted.{unpassed, hunted, hunted-le, Hunted, hunt_lem}

get_or-drop : (n i : ℕ) (xs : List ℕ) → get_or (drop n xs) i 0 ≡ get_or xs (n + i) 0
get_or-drop zero i xs = ap (λ k. get_or xs k 0) (omega arith)
get_or-drop (suc n) i [] = refl
get_or-drop (suc n) i (x ∷ xs) =
    get_or-drop n i xs ∙ ap (λ k. get_or (x ∷ xs) k 0) {x = suc (n + i)} (omega arith)

pub length-unpassed : (s : Scan) → length (unpassed s) ≡ get_size s.buffer - s.bytes_to_drop
length-unpassed s =
    length-drop s.bytes_to_drop (contents s.buffer)
    ∙ ap (λ n. n - s.bytes_to_drop) (length-contents s.buffer)

-- The byte at hand, among those that were not passed over.
at_hand :
    (s : Scan)
    → Inv 0 s
    → s.pos < s.buf_size
    → index s.buffer s.pos ≡ get_or (unpassed s) (s.pos - s.bytes_to_drop) 0
at_hand s v h =
    index_lem s.pos v.valid (omega (arith, h, v.sized))
    ∙ ap (λ k. get_or (contents s.buffer) k 0) {y = s.bytes_to_drop + (s.pos - s.bytes_to_drop)}
        (omega (arith, v.drop_le))
    ∙ sym (get_or-drop s.bytes_to_drop (s.pos - s.bytes_to_drop) (contents s.buffer))

module _ (more : List ℕ) (s s' : Scan) (v : Inv 0 s) (v' : Inv 0 s') (f : Follows more s s') where
  sizes : get_size s'.buffer - s'.bytes_to_drop ≡ get_size s.buffer - s.bytes_to_drop + length more
  sizes =
      sym (length-unpassed s')
      ∙ ap length f.bytes
      ∙ length-append (unpassed s) more
      ∙ ap (λ n. n + length more) (length-unpassed s)

  pub also_more : s.pos < s.buf_size → s'.pos < s'.buf_size
  also_more h = omega (arith, sizes, v.sized, v'.sized, f.place, v.drop_le, v'.drop_le, h)

  same_byte : s.pos < s.buf_size → index s'.buffer s'.pos ≡ index s.buffer s.pos
  same_byte h =
      at_hand s' v' (also_more h)
      ∙ ap₂ (λ l k. get_or l k 0) f.bytes f.place
      ∙ get_or-append_left (unpassed s) more (s.pos - s.bytes_to_drop) 0
          (omega (arith, length-unpassed s, v.sized, v.drop_le, h))
      ∙ sym (at_hand s v h)

  hunt-Follows :
      s.pos < s.buf_size
      → s.frame_start_found ≡ false
      → Follows more (advance (hunt s)) (advance (hunt s'))
  hunt-Follows h searching =
      let x = index s.buffer s.pos in
      let p = s.pos - s.bytes_to_drop in
      let a = hunt_lem s v h searching in
      let b =
        subst (Hunted s' (advance (hunt s'))) (ap₂ hunted (same_byte h) f.place)
          (hunt_lem s' v' (also_more h) (f.same_found ∙ searching)) in
      record {
        bytes =
            b.left
            ∙ ap (drop (hunted x p).0) f.bytes
            ∙ drop-append_left (hunted x p).0 (unpassed s) more
                (omega (arith, hunted-le x p, length-unpassed s, v.sized, v.drop_le, h))
            ∙ ap (λ l. l ++ more) (sym a.left);
        place = b.place ∙ sym a.place;
        same_sep = b.same_sep ∙ f.same_sep ∙ sym a.same_sep;
        same_found = b.found ∙ sym a.found;
        same_frame = b.same_frame ∙ f.same_frame ∙ sym a.same_frame;
        same_start = b.same_start ∙ f.same_start ∙ sym a.same_start;
        same_queue = b.same_queue ∙ f.same_queue ∙ sym a.same_queue;
      }

  -- Within a frame only the ring differs.
  only_ring : s.frame_start_found ≡ true → s' ≡ with_ring s'.buffer s'.buf_size s
  only_ring found =
      let none_passed = v.no_garbage found in
      let none_passed' = v'.no_garbage (f.same_found ∙ found) in
      let with_counts : ℕ → ℕ → Scan =
        λ p k. record s' { handler = record s'.handler { pos = p; sep_count = k } } in
      let with_frame : Bool → HaierFrame → Scan = λ b g. record s' {
        handler = record s'.handler {
          pos = s.pos;
          sep_count = s.sep_count;
          frame_start_found = b;
          current_frame = g;
        };
      } in
      let with_queue : ℕ → List TimestampedFrame → Scan = λ time q. record s' {
        handler = record s.handler { buffer = s'.buffer; frame_start = time; incoming_queue = q };
      } in
      ap₂ with_counts (omega (arith, f.place, none_passed, none_passed')) f.same_sep
      ∙ ap₂ with_frame f.same_found f.same_frame
      ∙ ap₂ with_queue f.same_start f.same_queue
      ∙ ap (λ d. record (with_ring s'.buffer s'.buf_size s) { bytes_to_drop = d })
          (none_passed' ∙ sym none_passed)

  pub round-Follows : s.pos < s.buf_size → Follows more (round s) (round s')
  unfolding round
  round-Follows h = elim (Bool-cases s.frame_start_found) [
    | inl found ↦
        let x : Extends more s.buffer s'.buffer = record {
          valid = v.valid;
          valid' = v'.valid;
          bytes =
              ap (λ d. drop d (contents s'.buffer)) (sym (v'.no_garbage (f.same_found ∙ found)))
              ∙ f.bytes
              ∙ ap (λ d. drop d (contents s.buffer) ++ more) (v.no_garbage found);
        } in
        subst (λ r. Follows more r (round s')) (sym (turns s found))
          (subst (λ r. Follows more (in_frame s) r)
            (ap in_frame (sym (only_ring found)) ∙ sym (turns s' (f.same_found ∙ found)))
            (in_frame-Follows more s s'.buffer s'.buf_size x v h found))
    | inr searching ↦
        subst (λ r. Follows more r (round s')) (sym (turns s searching))
          (subst (λ r. Follows more (advance (hunt s)) r)
            (sym (turns s' (f.same_found ∙ searching))) (hunt-Follows h searching))
  ]
    where
      turns :
          {b : Bool} (s : Scan)
          → s.frame_start_found ≡ b
          → round s ≡ (if b then in_frame s else advance (hunt s))
      turns s e = ap (λ k. if k then in_frame s else advance (hunt s)) e
