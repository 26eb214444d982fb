-- ===== src/Transport/Reset.antt =====
-- protocol_transport.cpp, `reset_protocol`, `clear_` and `drop`.
use haier_protocol.Prelude.{
  ℕ, zero, suc, ◌-◌, ◌≤◌, ◌≡◌, refl, sym, ap, ◌∙◌, List, [], ◌∷◌, arith, length, length-drop, drop,
  drop_all, if◌then◌else◌, ltb, Bool-cases, inl, inr,
}
use haier_protocol.Circular.{get_size}
use haier_protocol.Circular
use haier_protocol.Circular.Contents.{contents, length-contents}
use haier_protocol.Circular.Remove.{drop_lem}
use haier_protocol.Transport.State.{
  Transport, TimestampedFrame, reset_protocol, available, drop_frames, drop_frames_loop,
}
use haier_protocol.Transport.Total.{IsReady}
use haier_protocol.Transport.Frames.{AtRest}

-- From a handler between two calls, `reset_protocol` leaves one at rest, drops the bytes before `pos_`,
-- or all where `pos_` is behind the end, and keeps the other bytes and the queue.
reset_protocol_lem :
    (t : Transport)
    → IsReady t
    → let t' = reset_protocol t in
      IsReady t'
      × AtRest t'
      × (contents t'.buffer ≡ drop t.pos (contents t.buffer))
      × (t'.incoming_queue ≡ t.incoming_queue)
unfolding reset_protocol
reset_protocol_lem t r =
    let size = get_size t.buffer in
    let n = if ltb t.pos size then t.pos else size in
    let (count, d) = drop_lem n r.valid in
    let len = length-contents t.buffer in
    (
      record { valid = d.valid; sep_le = omega arith; searching = λ e. refl; incomplete = λ e. cc },
      refl,
      d.bytes ∙ elim (Bool-cases (ltb t.pos size)) [
        | inl before ↦
            let same : (Circular.drop t.buffer n).1 ≡ t.pos = count ∙ ground (arith, before) in
            ap (λ k. drop k (contents t.buffer)) same
        | inr behind ↦
            let all : size ≤ t.pos = ground (arith, behind) in
            let whole : (Circular.drop t.buffer n).1 ≡ size = count ∙ ground (arith, behind) in
            ap (λ k. drop k (contents t.buffer)) whole
            ∙ (drop_all size (contents t.buffer) (omega arith)
                ∙ sym (drop_all t.pos (contents t.buffer) (omega arith)))
      ],
      refl,
    )

drop_frames_loop_lem :
    (n : ℕ) (queue : List TimestampedFrame) → drop_frames_loop n queue ≡ drop n queue
unfolding drop_frames_loop
drop_frames_loop_lem zero queue = refl
drop_frames_loop_lem (suc n) [] = refl
drop_frames_loop_lem (suc n) (x ∷ queue) = drop_frames_loop_lem n queue

-- `drop` takes that many frames from the front of the queue, or all there are, and changes nothing
-- else.
pub drop_frames_lem :
    (t : Transport) (n : ℕ)
    → (drop_frames t n ≡ record t { incoming_queue = drop n t.incoming_queue })
      × (available (drop_frames t n) ≡ available t - n)
unfolding drop_frames
drop_frames_lem t n =
    let sz = available t in
    let k = if ltb n sz then n else sz in
    let queue : drop_frames_loop k t.incoming_queue ≡ drop n t.incoming_queue =
      drop_frames_loop_lem k t.incoming_queue ∙ elim (Bool-cases (ltb n sz)) [
        | inl fewer ↦ ap (λ k. drop k t.incoming_queue) {y = n} (ground (arith, fewer))
        | inr all ↦
            ap (λ k. drop k t.incoming_queue) {y = sz} (ground (arith, all))
            ∙ (drop_all sz t.incoming_queue (omega arith)
                ∙ sym (drop_all n t.incoming_queue (ground (arith, all))))
      ] in
    (
      ap (λ q. record t { incoming_queue = q }) queue,
      ap length queue ∙ length-drop n t.incoming_queue,
    )
