-- ===== src/Transport/Capacity.antt =====
-- protocol_transport.cpp: no operation of the handler changes the capacity of its buffer.
use haier_protocol.Prelude.{
  ℕ, zero, suc, ◌+◌, ◌-◌, ◌≡◌, refl, sym, ap, ◌∙◌, ltb, leb, ◌==◌, if◌then◌else◌, or_else, arith,
  size_add, size_sub, Option, none, some, Bool-cases, Option-cases, inl, inr,
}
use haier_protocol.Circular.{Circular, get_size, get_space, drop, reserve, index}
use haier_protocol.Frame.Types.{
  HaierFrame, FrameStatus, FrameError, frame_complete, frame_header_only, frame_empty,
  separator_byte, frame_separators_count, frame_header_size,
}
use haier_protocol.Stream.{ProtocolStream}
use haier_protocol.Transport.State.{Transport}
use haier_protocol.Transport.Scan.{
  Scan, hunt, after_header, take_header, after_body, take_body, in_status, in_frame, round, scan,
  unescape_loop, scan_fuel, scan_all, finish, process_data, count_separator,
}
use haier_protocol.Transport.Io.{make_space, read_into, read_twice, read_data}
use haier_protocol.Transport.Total.{expire_never}

drop-capacity : (c : Circular) (n : ℕ) → (drop c n).0.capacity ≡ c.capacity
unfolding drop
drop-capacity c n = refl

abbrev Same : ℕ → Scan → Type 0
Same n s = s.buffer.capacity ≡ n

hunt-Same : (s : Scan) → Same s.buffer.capacity (hunt s)
unfolding hunt
hunt-Same s =
    or_else (Same s.buffer.capacity) (index s.buffer s.pos == separator_byte)
      (or_else (Same s.buffer.capacity)
        (ltb frame_separators_count (size_sub (size_add s.pos 1) s.bytes_to_drop)) refl refl)
      (or_else (Same s.buffer.capacity) (size_sub s.pos s.bytes_to_drop == frame_separators_count)
        (or_else (Same s.buffer.capacity) (ltb 0 s.bytes_to_drop)
          (drop-capacity s.buffer s.bytes_to_drop) refl)
        refl)

after_header-buffer : (err : FrameError) (t : Transport) → (after_header err t).buffer ≡ t.buffer
unfolding after_header
after_header-buffer err t = ground arith

after_body-buffer :
    (err : FrameError) (f : HaierFrame) (t : Transport) → (after_body err f t).buffer ≡ t.buffer
unfolding after_body
after_body-buffer err f t = ground arith

take_header-Same : (s : Scan) → Same s.buffer.capacity (take_header s)
unfolding take_header
take_header-Same s =
    or_else (Same s.buffer.capacity) (unescape_loop s.buffer (s.pos + 1 - 3) 3).0
      (ap (λ (c : Circular). c.capacity) (after_header-buffer _ _) ∙ drop-capacity s.buffer _)
      (drop-capacity s.buffer _)

take_body-Same : (s : Scan) → Same s.buffer.capacity (take_body s)
unfolding take_body
take_body-Same s =
    or_else (Same s.buffer.capacity) (unescape_loop s.buffer (s.pos + 1) 0).0
      (ap (λ (c : Circular). c.capacity) (after_body-buffer _ _ _) ∙ drop-capacity s.buffer _)
      (drop-capacity s.buffer _)

in_status-Same : (st : FrameStatus) (s : Scan) → Same s.buffer.capacity (in_status st s)
in_status-Same frame_complete s = refl
in_status-Same frame_empty s =
    or_else (Same s.buffer.capacity) (size_sub (size_add s.pos 1) s.sep_count == frame_header_size)
      (take_header-Same s) refl
in_status-Same frame_header_only s =
    or_else (Same s.buffer.capacity)
      (size_sub (size_add s.pos 1) s.sep_count
        == s.current_frame.data_size + (if s.current_frame.use_crc then 3 else 1))
      (take_body-Same s) refl

round-Same : (s : Scan) → Same s.buffer.capacity (round s)
unfolding round in_frame
round-Same s =
    or_else (Same s.buffer.capacity) s.frame_start_found
      (in_status-Same s.current_frame.status (count_separator s)) (hunt-Same s)

scan-Same :
    (fuel : ℕ) (s s' : Scan) → scan fuel s ≡ some s' → s'.buffer.capacity ≡ s.buffer.capacity
unfolding scan
scan-Same zero s s' e = absurd (cc)
scan-Same (suc fuel) s s' e = elim (Bool-cases (ltb s.pos s.buf_size)) [
  | inl more ↦
      let next = scan-Same fuel (round s) s' in
      next (ap (λ b. if b then scan fuel (round s) else some s) (sym more) ∙ e) ∙ round-Same s
  | inr done ↦ ground (arith, e, done)
]

some-eq : {u v : Transport} → some u ≡ some v → u ≡ v
some-eq e = cc

none-some : {v : Transport} → none ≡ some v → ⊥
none-some e = cc

finish-capacity : (s : Scan) → (finish s).buffer.capacity ≡ s.buffer.capacity
finish-capacity s =
    or_else (λ (t : Transport). t.buffer.capacity ≡ s.buffer.capacity) (ltb 0 s.bytes_to_drop)
      (drop-capacity s.buffer s.bytes_to_drop) refl

scan_all-capacity :
    (t t' : Transport) → scan_all t ≡ some t' → t'.buffer.capacity ≡ t.buffer.capacity
unfolding scan_all
scan_all-capacity t t' e =
    let size = get_size t.buffer in
    let s : Scan = record { handler = t; buf_size = size; bytes_to_drop = 0 } in
    let ends = λ (o : Option Scan). elim o as (λ o. Option Transport) [
      | none ↦ none
      | some s ↦ some (finish s)
    ] in
    elim (Option-cases (scan (scan_fuel size) s)) [
      | inl out ↦ absurd (none-some (ap ends (sym out) ∙ e))
      | inr (s', run) ↦
          ap (λ (u : Transport). u.buffer.capacity) (sym (some-eq (ap ends (sym run) ∙ e)))
          ∙ finish-capacity s'
          ∙ scan-Same (scan_fuel size) s s' run
    ]

pub process_data-capacity :
    (now : ℕ) (t t' : Transport)
    → process_data now t ≡ some t'
    → t'.buffer.capacity ≡ t.buffer.capacity
unfolding process_data
process_data-capacity now t t' e =
    let run =
      ap (λ t. if t.buffer.is_empty then some t else scan_all t) (sym (expire_never now t)) ∙ e in
    elim (Bool-cases t.buffer.is_empty) [
      | inl empty ↦
          ap (λ (u : Transport). u.buffer.capacity)
            (sym (some-eq (ap (λ b. if b then some t else scan_all t) (sym empty) ∙ run)))
      | inr full ↦
          scan_all-capacity t t' (ap (λ b. if b then some t else scan_all t) (sym full) ∙ run)
    ]

module _ (stream : ProtocolStream) where
  open stream use {State, available}

  pub read_data-capacity :
      (s : State) (t : Transport) → (read_data stream s t).1.buffer.capacity ≡ t.buffer.capacity
  unfolding read_data make_space read_twice read_into reserve
  read_data-capacity s t =
      let n = if leb t.buffer.capacity (available s) then t.buffer.capacity else available s in
      let space : (make_space stream t n).buffer.capacity ≡ t.buffer.capacity =
        or_else (λ (u : Transport). u.buffer.capacity ≡ t.buffer.capacity)
          (ltb (get_space t.buffer) n)
          (or_else (λ (u : Transport). u.buffer.capacity ≡ t.buffer.capacity) t.frame_start_found
            (drop-capacity t.buffer _) (drop-capacity t.buffer _))
          refl in
      or_else {A = State × Transport × ℕ} (λ r. r.1.buffer.capacity ≡ t.buffer.capacity) _ space
        space
