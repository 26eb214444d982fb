-- ===== src/Transport/Within.antt =====
-- protocol_transport.cpp, a round of `process_data` within a frame, with more bytes behind those at
-- hand.
use haier_protocol.Prelude.{
  ℕ, ◌+◌, ◌-◌, ◌≤◌, ◌<◌, ◌≡◌, inl, inr, refl, true, List, ◌∷◌, arith, ◌==◌, if◌then◌else◌,
  Bool-cases, size_add, size_sub,
}
use haier_protocol.Circular.{Circular, get_size, index}
use haier_protocol.Circular.Validity.{get_size-le}
use haier_protocol.Frame.Types.{
  FrameStatus, frame_complete, frame_header_only, frame_empty, frame_header_size,
}
use haier_protocol.Frame.Parse.{parse_buffer}
use haier_protocol.Transport.State.{drop_bytes}
use haier_protocol.Transport.Scan.{
  Scan, advance, unescape_loop, drop_wrong, take_header, take_body, count_separator, in_status,
  in_frame,
}
use haier_protocol.Transport.Invariant.{Inv, unescape_loop_end, unescape_loop_start, counted}
use haier_protocol.Transport.Extend.{Extends, index-Extends, drop-Extends, unescape_loop-Extends}
use haier_protocol.Transport.Alike.{
  Alike, Follows, with_ring, Alike-Follows, after_header-Alike, after_body-Alike, rescan-Alike,
}

module _ (more : List ℕ) where
  module _ (s : Scan) (c : Circular) (n : ℕ) (x : Extends more s.buffer c) where
    abbrev s' : Scan
    s' = with_ring c n s

    dropped-Alike :
        (k : ℕ)
        → k ≤ get_size s.buffer
        → Alike more (drop_bytes s.handler k) (drop_bytes s'.handler k)
    dropped-Alike k h = record {
      rings = drop-Extends more s.buffer c k x h;
      same_pos = refl;
      same_sep = refl;
      same_found = refl;
      same_frame = refl;
      same_start = refl;
      same_queue = refl;
    }

    drop_wrong-Follows :
        (b : ℕ)
        → s.bytes_to_drop ≡ 0
        → size_sub b 1 ≤ get_size s.buffer
        → Follows more (drop_wrong s b) (drop_wrong s' b)
    drop_wrong-Follows b none_passed h =
        Alike-Follows more _ _ none_passed none_passed
          (rescan-Alike more _ _ (dropped-Alike (size_sub b 1) h))

    take_header-Follows :
        Inv 1 s
        → s.pos < s.buf_size
        → s.frame_start_found ≡ true
        → 9 ≤ s.pos
        → Follows more (take_header s) (take_header s')
    unfolding take_header
    take_header-Follows v h found far =
        let none_passed = v.no_garbage found in
        let cap = get_size-le v.valid in
        let r = unescape_loop s.buffer (s.pos + 1 - 3) 3 in
        let ends = unescape_loop_end s.buffer (s.pos + 1 - 3) 3 in
        let same =
          unescape_loop-Extends more s.buffer c (s.pos + 1 - 3) 3 x (omega (arith, v.sized, h)) in
        let e0 = index-Extends more s.buffer c 0 x (omega (arith, v.sized, h)) in
        let e1 = index-Extends more s.buffer c 1 x (omega (arith, v.sized, h)) in
        let e2 = index-Extends more s.buffer c 2 x (omega (arith, v.sized, h)) in
        let header = index s.buffer 0 ∷ index s.buffer 1 ∷ index s.buffer 2 ∷ r.1 in
        let p = parse_buffer s.current_frame header in
        rw (same, e0, e1, e2)
          (elim (Bool-cases r.0) [
            | inl good ↦
                let dropped = dropped-Alike r.2 (omega (arith, ends.0 good, v.sized, h)) in
                rw good (
                  Alike-Follows more _ _ none_passed none_passed (
                    after_header-Alike more p.2
                      (record (drop_bytes s.handler r.2) {
                        pos = 0;
                        sep_count = 0;
                        current_frame = p.0;
                      })
                      (record (drop_bytes s'.handler r.2) {
                        pos = 0;
                        sep_count = 0;
                        current_frame = p.0;
                      })
                      (record {
                        rings = dropped.rings;
                        same_pos = refl;
                        same_sep = refl;
                        same_found = refl;
                        same_frame = refl;
                        same_start = refl;
                        same_queue = refl;
                      })))
            | inr bad ↦
                let (lo, hi) = ends.1 bad in
                rw bad (
                  drop_wrong-Follows r.2 none_passed
                    (omega (arith, lo, hi, v.sized, h, cap, v.valid.small)))
          ])

    take_body-Follows :
        Inv 1 s
        → s.pos < s.buf_size
        → s.frame_start_found ≡ true
        → Follows more (take_body s) (take_body s')
    unfolding take_body
    take_body-Follows v h found =
        let none_passed = v.no_garbage found in
        let cap = get_size-le v.valid in
        let r = unescape_loop s.buffer (s.pos + 1) 0 in
        let ends = unescape_loop_end s.buffer (s.pos + 1) 0 in
        let same =
          unescape_loop-Extends more s.buffer c (s.pos + 1) 0 x (omega (arith, v.sized, h)) in
        let p = parse_buffer s.current_frame r.1 in
        rw same (elim (Bool-cases r.0) [
          | inl good ↦
              let dropped = dropped-Alike r.2 (omega (arith, ends.0 good, v.sized, h)) in
              rw good (
                Alike-Follows more _ _ none_passed none_passed
                  (rescan-Alike more _ _ (after_body-Alike more p.2 p.0 _ _ dropped)))
          | inr bad ↦
              let (_, hi) = ends.1 bad in
              let some_before = unescape_loop_start s.buffer (s.pos + 1) (omega arith) bad in
              rw bad (
                drop_wrong-Follows r.2 none_passed
                  (omega (arith, some_before, hi, v.sized, h, cap, v.valid.small)))
        ])

    advance-Follows : s.bytes_to_drop ≡ 0 → Follows more (advance s) (advance s')
    advance-Follows none_passed = Alike-Follows more _ _ none_passed none_passed (record {
      rings = x;
      same_pos = refl;
      same_sep = refl;
      same_found = refl;
      same_frame = refl;
      same_start = refl;
      same_queue = refl;
    })

    in_status-Follows :
        (st : FrameStatus)
        → Inv 1 s
        → s.pos < s.buf_size
        → s.frame_start_found ≡ true
        → s.current_frame.status ≡ st
        → Follows more (in_status st s) (in_status st s')
    in_status-Follows frame_complete v h found e = absurd (v.incomplete e)
    in_status-Follows frame_empty v h found e =
        elim (Bool-cases (size_sub (size_add s.pos 1) s.sep_count == frame_header_size)) [
          | inl full ↦
              let far : 9 ≤ s.pos =
                ground (arith, full, v.sep_le, v.sized, v.valid.small, get_size-le v.valid) in
              rw full (take_header-Follows v h found far)
          | inr short ↦ rw short (advance-Follows (v.no_garbage found))
        ]
    in_status-Follows frame_header_only v h found e =
        elim (Bool-cases (
          size_sub (size_add s.pos 1) s.sep_count
          == s.current_frame.data_size + (if s.current_frame.use_crc then 3 else 1))) [
            | inl full ↦ rw full (take_body-Follows v h found)
            | inr short ↦ rw short (advance-Follows (v.no_garbage found))
          ]

  pub in_frame-Follows :
      (s : Scan) (c : Circular) (n : ℕ)
      → Extends more s.buffer c
      → Inv 0 s
      → s.pos < s.buf_size
      → s.frame_start_found ≡ true
      → Follows more (in_frame s) (in_frame (with_ring c n s))
  unfolding in_frame
  in_frame-Follows s c n x v h found =
      rw (index-Extends more s.buffer c s.pos x (omega (arith, v.sized, h))) (
        in_status-Follows (count_separator s) c n x s.current_frame.status (counted s v h found) h
          found refl)
