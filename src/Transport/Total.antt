-- ===== src/Transport/Total.antt =====
-- `process_data` of protocol_transport.cpp, the whole loop: its fuel, its end, and the handler after
-- it.
use haier_protocol.Prelude.{
  ℕ, zero, suc, ◌+◌, ◌-◌, ◌*◌, ◌≤◌, ◌<◌, ◌&&◌, ◌≡◌, ◌≢◌, ◌⊎◌, inl, inr, refl, ap, ◌∙◌, false, some,
  none, arith, Bool-cases, ltb, if◌then◌else◌,
}
use haier_protocol.Circular.{IsValid, get_size}
use haier_protocol.Circular.Validity.{get_size-le, is_empty_iff_size}
use haier_protocol.Circular.Remove.{drop_lem}
use haier_protocol.Frame.Types.{
  frame_complete, frame_header_only, frame_empty, status_value, FrameStatus,
}
use haier_protocol.Transport.State.{Transport, drop_bytes, rescan}
use haier_protocol.Transport.Scan.{
  Scan, round, scan, frame_timeout, scan_fuel, finish, expire, scan_all, process_data,
}
use haier_protocol.Transport.Invariant.{Inv, phi, weight, round-Progress}

-- A handler between two calls. `pos_` may lie behind the end of the buffer: `read_data` drops bytes
-- without a word to it.
pub record IsReady (t : Transport) : Type 0 where
  pub valid : IsValid t.buffer
  pub sep_le : t.sep_count ≤ t.pos
  pub searching : t.frame_start_found ≡ false → t.sep_count ≡ 0
  pub incomplete : t.current_frame.status ≢ frame_complete

-- the rounds that may be left, where the buffer never holds more than `n` bytes
measure : ℕ → Scan → ℕ
measure n s = phi s * (n + 1) + (s.buf_size - s.pos)

-- one more of `p` makes up for all of `n`
product_le : (k : ℕ) {q p : ℕ} → q < p → q * k + k ≤ p * k
product_le zero h = omega arith
product_le (suc k) {q} {p} h = grind (arith, product_le k h)

measure_falls :
    (n p q r r' : ℕ) → (q < p) ⊎ ((q ≡ p) × (r' < r)) → r' ≤ n → q * (n + 1) + r' < p * (n + 1) + r
measure_falls n p q r r' (inl less) small = omega (arith, product_le (n + 1) less)
measure_falls n p q r r' (inr (same, less)) small = rw same (omega arith)

-- With more fuel than that, the loop ends by its test, and the invariant holds.
scan_total :
    (n fuel : ℕ) (s : Scan)
    → Inv 0 s
    → s.buf_size ≤ n
    → measure n s < fuel
    → (t : Scan) × (scan fuel s ≡ some t) × Inv 0 t × (t.buf_size ≤ t.pos)
unfolding scan measure
scan_total n zero s v small m = absurd (omega arith)
scan_total n (suc fuel) s v small m =
    let rest = scan fuel (round s) in
    elim (Bool-cases (ltb s.pos s.buf_size)) [
      | inl more ↦
          let p = round-Progress s v (ground (arith, more)) in
          let less =
            measure_falls n (phi s) (phi (round s)) (s.buf_size - s.pos)
              ((round s).buf_size - (round s).pos) p.less (omega (arith, p.no_more)) in
          let (t, e, w, end) =
            scan_total n fuel (round s) p.inv (omega (arith, p.no_more)) (omega (arith, less)) in
          (t, ap (λ k. if k then rest else some s) more ∙ e, w, end)
      | inr done ↦ (s, ap (λ k. if k then rest else some s) done, v, ground (arith, done))
    ]

pub scan_stops :
    (fuel : ℕ) (s : Scan) → 0 < fuel → ltb s.pos s.buf_size ≡ false → scan fuel s ≡ some s
unfolding scan
scan_stops zero s h e = absurd (omega arith)
scan_stops (suc fuel) s h e = ap (λ k. if k then scan fuel (round s) else some s) e

-- The fuel of `scan_all` is enough.
fuel_lem :
    (size pos : ℕ) (st : FrameStatus)
    → (size + weight st) * (size + 1) + (size - pos) < scan_fuel size
fuel_lem size pos frame_complete = grind arith
fuel_lem size pos frame_header_only = grind arith
fuel_lem size pos frame_empty = grind arith

finish-IsReady :
    (s : Scan)
    → Inv 0 s
    → s.buf_size ≤ s.pos
    → IsReady (finish s) × ((finish s).pos ≡ get_size (finish s).buffer)
finish-IsReady s v end = elim (Bool-cases (ltb 0 s.bytes_to_drop)) [
  | inl garbage ↦ rw garbage (ground (arith, drop_lem s.bytes_to_drop v.valid, get_size-le v.valid))
  | inr clean ↦ rw clean (ground arith)
]

-- `FRAME_EMPTY` is the largest of the enumerators.
never_above : (st : FrameStatus) → ltb (status_value frame_empty) (status_value st) ≡ false
never_above frame_complete = refl
never_above frame_header_only = refl
never_above frame_empty = refl

-- The test for a timeout changes nothing, at any time and in any state.
pub expire_never : (now : ℕ) (t : Transport) → expire now t ≡ t
unfolding expire
expire_never now t =
    ap
      (λ b. if b && ltb frame_timeout (now - t.frame_start) then rescan (drop_bytes t t.pos) else t)
      (never_above t.current_frame.status)

-- What the loop leaves: every byte was looked at, or there was nothing to look at.
abbrev pub Looked : Transport → Transport → Type 0
Looked t t' = (t'.pos ≡ get_size t'.buffer) ⊎ ((get_size t.buffer ≤ t.pos) × (t' ≡ t))

scan_all_total :
    (t : Transport)
    → IsReady t
    → (t' : Transport) × (scan_all t ≡ some t') × IsReady t' × Looked t t'
unfolding scan_all scan measure
scan_all_total t r =
    let size = get_size t.buffer in
    let s : Scan = record { handler = t; buf_size = size; bytes_to_drop = 0 } in
    let fuel = (size + 2) * (size + 1) in
    elim (Bool-cases (ltb t.pos size)) [
      | inl more ↦
          let v : Inv 0 s = ground arith in
          let (s', e, w, end) =
            scan_total size (scan_fuel size) s v (omega arith)
              (fuel_lem size t.pos t.current_frame.status) in
          let (ready, all) = finish-IsReady s' w end in
          (finish s', ap (λ r. elim r [ none ↦ none | some s ↦ some (finish s) ]) e, ready, inl all)
      | inr done ↦ (
        t,
        ap (λ r. elim r [ none ↦ none | some s ↦ some (finish s) ])
            (scan_stops (scan_fuel size) s (ground arith) done),
        r,
        inr (ground (arith, done), refl),
      )
    ]

-- `process_data` ends on every handler between two calls, at any time. Its result is a handler
-- between two calls again, and every byte left in its buffer was looked at, unless `pos_` was at the
-- end or behind it: then the handler is unchanged.
pub process_data_total :
    (now : ℕ) (t : Transport)
    → IsReady t
    → (t' : Transport) × (process_data now t ≡ some t') × IsReady t' × Looked t t'
unfolding process_data
process_data_total now t r =
    let started = ap (λ t. if t.buffer.is_empty then some t else scan_all t) (expire_never now t) in
    elim (Bool-cases t.buffer.is_empty) [
      | inl empty ↦
          let zero_size = (is_empty_iff_size r.valid).0 empty in
          (
            t,
            started ∙ ap (λ b. if b then some t else scan_all t) empty,
            r,
            inr (omega arith, refl),
          )
      | inr full ↦
          let (t', e, ready, all) = scan_all_total t r in
          (t', started ∙ ap (λ b. if b then some t else scan_all t) full ∙ e, ready, all)
    ]
