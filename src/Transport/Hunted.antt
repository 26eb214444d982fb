-- ===== src/Transport/Hunted.antt =====
-- protocol_transport.cpp, a round of the search of `process_data`, as a step on the bytes that were not
-- passed over.
use haier_protocol.Prelude.{
  ℕ, ◌+◌, ◌-◌, ◌≤◌, ◌<◌, ◌≡◌, inl, inr, refl, ap, ◌∙◌, Bool, true, false, List, arith, drop,
  drop-add, ltb, ◌==◌, if◌then◌else◌, Bool-cases, size_add, size_sub,
}
use haier_protocol.Circular.{index}
use haier_protocol.Circular.Validity.{get_size-le}
use haier_protocol.Circular.Contents.{contents}
use haier_protocol.Circular.Remove.{drop_lem}
use haier_protocol.Frame.Types.{separator_byte, frame_separators_count}
use haier_protocol.Transport.Scan.{Scan, advance, hunt}
use haier_protocol.Transport.Invariant.{Inv}

-- What was not passed over.
abbrev pub unpassed : Scan → List ℕ
unpassed s = drop s.bytes_to_drop (contents s.buffer)

-- The byte at a place: how many bytes are passed over, where the search stands then, and whether this
-- is the start of a frame.
abbrev pub hunted : ℕ → ℕ → ℕ × ℕ × Bool
hunted x p =
    if x == separator_byte
    then (if ltb 2 (p + 1) then (p - 1, 2, false) else (0, p + 1, false))
    else (if p == 2 then (0, p + 1, true) else (p + 1, 0, false))

pub hunted-le : (x p : ℕ) → (hunted x p).0 ≤ p + 1
hunted-le x p = ground arith

pub record Hunted (s r : Scan) (o : ℕ × ℕ × Bool) : Type 0 where
  pub left : unpassed r ≡ drop o.0 (unpassed s)
  pub place : r.pos - r.bytes_to_drop ≡ o.1
  pub found : r.frame_start_found ≡ o.2
  pub same_sep : r.sep_count ≡ s.sep_count
  pub same_frame : r.current_frame ≡ s.current_frame
  pub same_start : r.handler.frame_start ≡ s.handler.frame_start
  pub same_queue : r.handler.incoming_queue ≡ s.handler.incoming_queue

pub hunt_lem :
    (s : Scan)
    → Inv 0 s
    → s.pos < s.buf_size
    → s.frame_start_found ≡ false
    → Hunted s (advance (hunt s)) (hunted (index s.buffer s.pos) (s.pos - s.bytes_to_drop))
unfolding hunt
hunt_lem s v h e =
    let cap = get_size-le v.valid in
    let l = contents s.buffer in
    let d = s.bytes_to_drop in
    let p = s.pos - d in
    let further : (n k : ℕ) → n ≡ d + k → drop n l ≡ drop k (drop d l) =
      λ n k same. ap (λ m. drop m l) same ∙ drop-add d k l in
    elim (Bool-cases (index s.buffer s.pos == separator_byte)) [
      | inl sep ↦ elim (Bool-cases (ltb 2 (p + 1))) [
        | inl many ↦
            let wide : ltb frame_separators_count (size_sub (size_add s.pos 1) d) ≡ true =
              ground (arith, many, h, cap, v.drop_le, v.sized, v.valid.small) in
            rw (sep, many, wide)
              (record {
                left =
                    further _ (p - 1)
                      (ground (arith, many, h, cap, v.drop_le, v.sized, v.valid.small));
                place = ground (arith, many, h, cap, v.drop_le, v.sized, v.valid.small);
                found = e;
                same_sep = refl;
                same_frame = refl;
                same_start = refl;
                same_queue = refl;
              })
        | inr few ↦
            let narrow : ltb frame_separators_count (size_sub (size_add s.pos 1) d) ≡ false =
              ground (arith, few, h, cap, v.drop_le, v.sized, v.valid.small) in
            rw (sep, few, narrow)
              (record {
                left = refl;
                place = omega (arith, h, cap, v.drop_le, v.sized, v.valid.small);
                found = e;
                same_sep = refl;
                same_frame = refl;
                same_start = refl;
                same_queue = refl;
              })
      ]
      | inr other ↦ elim (Bool-cases (p == 2)) [
        | inl start ↦
            let starts : (size_sub s.pos d == frame_separators_count) ≡ true =
              ground (arith, start, h, cap, v.drop_le, v.sized, v.valid.small) in
            elim (Bool-cases (ltb 0 d)) [
              | inl garbage ↦
                  let (count, drops) = drop_lem d v.valid in
                  rw (other, start, starts, garbage)
                    (record {
                      left =
                          drops.bytes
                          ∙ ap (λ n. drop n l) (count ∙ omega (arith, h, v.drop_le, v.sized));
                      place = omega (arith, h, cap, v.drop_le, v.sized, v.valid.small);
                      found = refl;
                      same_sep = refl;
                      same_frame = refl;
                      same_start = refl;
                      same_queue = refl;
                    })
              | inr clean ↦
                  rw (other, start, starts, clean)
                    (record {
                      left = refl;
                      place = ground (arith, h, cap, v.drop_le, v.sized, v.valid.small);
                      found = refl;
                      same_sep = refl;
                      same_frame = refl;
                      same_start = refl;
                      same_queue = refl;
                    })
            ]
        | inr no_start ↦
            let not_yet : (size_sub s.pos d == frame_separators_count) ≡ false =
              ground (arith, no_start, h, cap, v.drop_le, v.sized, v.valid.small) in
            rw (other, no_start, not_yet)
              (record {
                left = further _ (p + 1) (omega (arith, h, cap, v.drop_le, v.sized, v.valid.small));
                place = omega (arith, h, cap, v.drop_le, v.sized, v.valid.small);
                found = e;
                same_sep = refl;
                same_frame = refl;
                same_start = refl;
                same_queue = refl;
              })
      ]
    ]
