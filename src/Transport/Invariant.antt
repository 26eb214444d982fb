-- ===== src/Transport/Invariant.antt =====
-- The loop of `process_data` in protocol_transport.cpp: what holds at each round, and what falls.
use haier_protocol.Prelude.{
  ℕ, zero, suc, ◌+◌, ◌-◌, ◌≤◌, ◌<◌, ◌≡◌, ◌≢◌, ◌⊎◌, inl, inr, refl, sym, ap, subst, true, false,
  List, ◌∷◌, arith, Bool-cases, ltb, ◌==◌, if◌then◌else◌, size_add, size_sub,
}
use haier_protocol.Circular.{Circular, IsValid, get_size, index}
use haier_protocol.Circular.Validity.{get_size-le}
use haier_protocol.Circular.Remove.{drop_lem}
use haier_protocol.Frame.Types.{
  HaierFrame, FrameStatus, frame_complete, frame_header_only, frame_empty, FrameError, header_only,
  complete_frame, empty_frame, separator_byte, frame_separators_count, frame_header_size,
}
use haier_protocol.Frame.Parse.{parse_buffer}
use haier_protocol.Frame.Outcome.{parse_buffer-Tells}
use haier_protocol.Transport.State.{Transport, TimestampedFrame, drop_bytes}
use haier_protocol.Transport.Scan.{
  Scan, advance, hunt, unescape_loop, drop_wrong, after_header, after_body, take_header, take_body,
  count_separator, in_status, in_frame, round,
}

-- The ring is valid, its size is known, and all counts are within it. Between two rounds `ahead` is
-- 0; within one, the separator count is ahead of `pos_` by the byte at hand.
pub record Inv (ahead : ℕ) (s : Scan) : Type 0 where
  pub valid : IsValid s.buffer
  pub sized : s.buf_size ≡ get_size s.buffer
  pub pos_le : s.pos ≤ s.buf_size
  pub drop_le : s.bytes_to_drop ≤ s.pos
  pub sep_le : s.sep_count ≤ s.pos + ahead
  pub searching : s.frame_start_found ≡ false → s.sep_count ≡ 0
  pub incomplete : s.current_frame.status ≢ frame_complete
  pub no_garbage : s.frame_start_found ≡ true → s.bytes_to_drop ≡ 0

-- a header that was taken in weighs as much as a byte
abbrev pub weight : FrameStatus → ℕ
weight frame_empty = 0
weight _ = 1

abbrev pub phi : Scan → ℕ
phi s = s.buf_size + weight s.current_frame.status

-- A round goes on to the next byte, or has fewer bytes and headers left.
pub record Progress (s t : Scan) : Type 0 where
  pub inv : Inv 0 t
  pub no_more : t.buf_size ≤ s.buf_size
  pub less : (phi t < phi s) ⊎ ((phi t ≡ phi s) × (t.buf_size - t.pos < s.buf_size - s.pos))

pub unescape_loop_end :
    (c : Circular) (n b : ℕ)
    → let (correct, _, end) = unescape_loop c n b in
      (correct ≡ true → end ≡ b + n) × (correct ≡ false → (b ≤ end) × (end < b + n))
unfolding unescape_loop
unescape_loop_end c zero b = (λ e. omega arith, λ e. cc)
unescape_loop_end c (suc n) b = ground (arith, unescape_loop_end c n (b + 1))

-- The first byte of a body is never taken for a post byte.
pub unescape_loop_start :
    (c : Circular) (n : ℕ) → 0 < n → (unescape_loop c n 0).0 ≡ false → 0 < (unescape_loop c n 0).2
unfolding unescape_loop
unescape_loop_start c zero h e = absurd (omega arith)
unescape_loop_start c (suc n) h e = ground (arith, unescape_loop_end c n (0 + 1))

-- One step of the search, with the byte it stands on behind it.
hunt-Progress :
    (s : Scan)
    → Inv 0 s
    → s.pos < s.buf_size
    → s.frame_start_found ≡ false
    → Progress s (advance (hunt s))
unfolding hunt
hunt-Progress s v h e =
    let cap = get_size-le v.valid in
    elim (Bool-cases (index s.buffer s.pos == separator_byte)) [
      | inl sep ↦
          elim (Bool-cases
            (ltb frame_separators_count (size_sub (size_add s.pos 1) s.bytes_to_drop))) [
              | inl many ↦ rw (sep, many) (ground arith)
              | inr few ↦ rw (sep, few) (ground arith)
            ]
      | inr other ↦ elim (Bool-cases (size_sub s.pos s.bytes_to_drop == frame_separators_count)) [
        | inl start ↦ elim (Bool-cases (ltb 0 s.bytes_to_drop)) [
          | inl garbage ↦
              rw (other, start, garbage) (ground (arith, drop_lem s.bytes_to_drop v.valid))
          | inr clean ↦ rw (other, start, clean) (ground arith)
        ]
        | inr no_start ↦ rw (other, no_start) (ground arith)
      ]
    ]

-- A stored header: the frame it started, or none.
after_header-cases :
    (err : FrameError) (t : Transport)
    → ((err ≡ header_only) × (after_header err t ≡ t))
      ⊎ (after_header err t ≡ record t { current_frame = empty_frame; frame_start_found = false })
unfolding after_header
after_header-cases header_only t = inl (refl, refl)
after_header-cases _ t = inr refl

-- A wrong post byte at `b`: something is dropped, or a header given up.
drop_wrong-Progress :
    (s : Scan) (b : ℕ)
    → Inv 1 s
    → b ≤ s.pos
    → s.pos < s.buf_size
    → s.bytes_to_drop ≡ 0
    → (2 < b) ⊎ ((0 < b) × (s.current_frame.status ≡ frame_header_only))
    → Progress s (drop_wrong s b)
drop_wrong-Progress s b v hb hp none big =
    ground (arith, drop_lem (size_sub b 1) v.valid, get_size-le v.valid)

take_header-Progress :
    (s : Scan)
    → Inv 1 s
    → s.pos < s.buf_size
    → s.frame_start_found ≡ true
    → size_sub (size_add s.pos 1) s.sep_count ≡ frame_header_size
    → s.current_frame.status ≡ frame_empty
    → Progress s (take_header s)
unfolding take_header
take_header-Progress s v h found trigger st =
    let c = s.buffer in
    let r = unescape_loop c (s.pos + 1 - 3) 3 in
    let ends = unescape_loop_end c (s.pos + 1 - 3) 3 in
    let cap = get_size-le v.valid in
    let far : 9 ≤ s.pos = omega (arith, v.sep_le, v.sized, v.valid.small) in
    elim (Bool-cases r.0) [
      | inl good ↦
          let t = drop_bytes s.handler r.2 in
          let header = index c 0 ∷ index c 1 ∷ index c 2 ∷ r.1 in
          let p = parse_buffer t.current_frame header in
          let told = parse_buffer-Tells t.current_frame header v.incomplete in
          let drops = drop_lem r.2 v.valid in
          let stored = record t { pos = 0; sep_count = 0; current_frame = p.0 } in
          let end = ends.0 good in
          elim (after_header-cases p.2 stored) [
            | inl (e, same) ↦ rw (good, same) (ground arith)
            | inr reset ↦ rw (good, reset) (ground arith)
          ]
      | inr bad ↦
          let (lo, hi) = ends.1 bad in
          rw bad (drop_wrong-Progress s r.2 v (omega arith) h (v.no_garbage found) (inl lo))
    ]

after_body-cases :
    (err : FrameError) (f : HaierFrame) (t : Transport)
    → (queue : List TimestampedFrame) × (after_body err f t ≡ record t { incoming_queue = queue })
unfolding after_body
after_body-cases complete_frame f t = (_, refl)
after_body-cases _ f t = (_, refl)

take_body-Progress :
    (s : Scan)
    → Inv 1 s
    → s.pos < s.buf_size
    → s.frame_start_found ≡ true
    → s.current_frame.status ≡ frame_header_only
    → Progress s (take_body s)
unfolding take_body
take_body-Progress s v h found st =
    let c = s.buffer in
    let r = unescape_loop c (s.pos + 1) 0 in
    let ends = unescape_loop_end c (s.pos + 1) 0 in
    let cap = get_size-le v.valid in
    elim (Bool-cases r.0) [
      | inl good ↦
          let t = drop_bytes s.handler r.2 in
          let p = parse_buffer t.current_frame r.1 in
          let drops = drop_lem r.2 v.valid in
          let (queue, same) = after_body-cases p.2 p.0 t in
          let end = ends.0 good in rw (good, same) (ground arith)
      | inr bad ↦
          let (lo, hi) = ends.1 bad in
          rw bad (
            drop_wrong-Progress s r.2 v (omega arith) h (v.no_garbage found)
              (inr (unescape_loop_start c (s.pos + 1) (omega arith) bad, st)))
    ]

-- The byte at hand is counted before the frame is looked at.
pub counted :
    (s : Scan)
    → Inv 0 s
    → s.pos < s.buf_size
    → s.frame_start_found ≡ true
    → Inv 1 (count_separator s)
counted s v h found = ground (arith, get_size-le v.valid)

in_status-Progress :
    (st : FrameStatus) (s : Scan)
    → Inv 1 s
    → s.pos < s.buf_size
    → s.frame_start_found ≡ true
    → s.current_frame.status ≡ st
    → Progress s (in_status st s)
in_status-Progress frame_complete s v h found e = absurd (v.incomplete e)
in_status-Progress frame_empty s v h found e =
    elim (Bool-cases (size_sub (size_add s.pos 1) s.sep_count == frame_header_size)) [
      | inl full ↦ rw full (take_header-Progress s v h found (ground arith) e)
      | inr more ↦ rw more (ground (arith, get_size-le v.valid))
    ]
in_status-Progress frame_header_only s v h found e =
    elim (Bool-cases (
      size_sub (size_add s.pos 1) s.sep_count
      == s.current_frame.data_size + (if s.current_frame.use_crc then 3 else 1))) [
        | inl full ↦ rw full (take_body-Progress s v h found e)
        | inr more ↦ rw more (ground (arith, get_size-le v.valid))
      ]

-- Every round keeps the invariant, and makes progress.
pub round-Progress : (s : Scan) → Inv 0 s → s.pos < s.buf_size → Progress s (round s)
unfolding round in_frame
round-Progress s v h = elim (Bool-cases s.frame_start_found) [
  | inl found ↦
      let p =
        in_status-Progress s.current_frame.status (count_separator s) (counted s v h found) h found
          refl in
      subst (Progress s) (sym (ap (λ k. if k then in_frame s else advance (hunt s)) found))
        (record { inv = p.inv; no_more = p.no_more; less = p.less })
  | inr hunting ↦
      subst (Progress s) (sym (ap (λ k. if k then in_frame s else advance (hunt s)) hunting))
        (hunt-Progress s v h hunting)
]
