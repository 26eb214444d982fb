-- ===== src/Transport/Walk.antt =====
-- protocol_transport.cpp, the loop of `process_data` over the bytes of a header or a body: it counts
-- up to the last byte, and there it takes them.
use haier_protocol.Prelude.{
  ℕ, suc, ◌+◌, ◌-◌, ◌≤◌, ◌<◌, ◌≡◌, ◌≢◌, inl, inr, refl, ap, ap₂, subst, ◌∙◌, true, List, [], ◌∷◌,
  ◌++◌, arith, length, length-append, some, ltb, ◌==◌, ==-false, ==-refl, if◌then◌else◌, size_add,
  size_sub, size_mod,
}
use haier_protocol.Circular.{index}
use haier_protocol.Frame.Types.{
  HaierFrame, FrameStatus, frame_complete, frame_header_only, frame_empty, frame_header_size,
  separator_byte, separator_post_byte,
}
use haier_protocol.Frame.Wire.{
  escape, escape-append, separators, separators-append, separators-le, escape_cases, length-escape,
}
use haier_protocol.Transport.Scan.{
  Scan, advance, take_header, take_body, in_status, in_frame, hunt, round, scan,
}
use haier_protocol.Transport.Unescape.{Holds, Holds-append}

-- One round of the loop.
pub scan_step : (fuel : ℕ) (s : Scan) → s.pos < s.buf_size → scan (suc fuel) s ≡ scan fuel (round s)
unfolding scan
scan_step fuel s h = ap (λ k. if k then scan fuel (round s) else some s) (more h)
  where
    more : s.pos < s.buf_size → ltb s.pos s.buf_size ≡ true
    more h = ground (arith, h)

abbrev pub at : Scan → ℕ → ℕ → Scan
at s p k = record s { handler = record s.handler { pos = p; sep_count = k } }

-- How many bytes, post bytes left out, the part of the frame has that is read now.
abbrev pub target : FrameStatus → HaierFrame → ℕ
target frame_empty f = frame_header_size
target frame_header_only f = f.data_size + (if f.use_crc then 3 else 1)
target frame_complete f = 0

abbrev pub taking : FrameStatus → Scan → Scan
taking frame_empty s = take_header s
taking frame_header_only s = take_body s
taking frame_complete s = s

in_status_more :
    (st : FrameStatus) (s : Scan)
    → st ≢ frame_complete
    → size_sub (size_add s.pos 1) s.sep_count ≢ target st s.current_frame
    → in_status st s ≡ advance s
in_status_more frame_complete s h e = absurd (h refl)
in_status_more frame_empty s h e = rw (==-false _ _ e)
in_status_more frame_header_only s h e = rw (==-false _ _ e)

in_status_full :
    (st : FrameStatus) (s : Scan)
    → st ≢ frame_complete
    → size_sub (size_add s.pos 1) s.sep_count ≡ target st s.current_frame
    → in_status st s ≡ taking st s
in_status_full frame_complete s h e = absurd (h refl)
in_status_full frame_empty s h e =
    ap (λ b. if b then take_header s else advance s)
      (ap (λ x. x == frame_header_size) e ∙ ==-refl frame_header_size)
in_status_full frame_header_only s h e =
    let n = target frame_header_only s.current_frame in
    ap (λ b. if b then take_body s else advance s) (ap (λ x. x == n) e ∙ ==-refl n)

module _ (s : Scan) (found : s.frame_start_found ≡ true)
    (incomplete : s.current_frame.status ≢ frame_complete) (small : s.buf_size < size_mod) where
  abbrev pub needed : ℕ
  needed = target s.current_frame.status s.current_frame

  round_frame :
      (p k : ℕ) (b : ℕ)
      → index s.buffer p ≡ b
      → round (at s p k)
        ≡ in_status s.current_frame.status
            (at s p (if b == separator_byte then size_add k 1 else k))
  unfolding round in_frame
  round_frame p k b e =
      ap (λ f. if f then in_frame (at s p k) else advance (hunt (at s p k))) found
      ∙ ap
          (λ b.
            in_status s.current_frame.status
              (at s p (if b == separator_byte then size_add k 1 else k)))
          e

  counted :
      (b p k k' : ℕ)
      → p < s.buf_size
      → k' ≡ (if b == separator_byte then k + 1 else k)
      → k' ≤ p + 1
      → (if b == separator_byte then size_add k 1 else k) ≡ k'
  counted b p k k' h ek le = ground (arith, small)

  -- a byte that is not the last
  round_more :
      (p k k' b : ℕ)
      → index s.buffer p ≡ b
      → p < s.buf_size
      → k' ≡ (if b == separator_byte then k + 1 else k)
      → k' ≤ p + 1
      → p + 1 - k' ≢ needed
      → round (at s p k) ≡ at s (p + 1) k'
  round_more p k k' b e h ek le ne =
      round_frame p k b e
      ∙ (ap (λ k. in_status s.current_frame.status (at s p k)) (counted b p k k' h ek le)
          ∙ (in_status_more s.current_frame.status (at s p k') incomplete
                (λ full. ne (omega arith ∙ full))
              ∙ ap (λ q. at s q k') {y = p + 1} (omega arith)))

  -- the last byte
  round_full :
      (p k k' b : ℕ)
      → index s.buffer p ≡ b
      → p < s.buf_size
      → k' ≡ (if b == separator_byte then k + 1 else k)
      → k' ≤ p + 1
      → p + 1 - k' ≡ needed
      → round (at s p k) ≡ taking s.current_frame.status (at s p k')
  round_full p k k' b e h ek le full =
      round_frame p k b e
      ∙ (ap (λ k. in_status s.current_frame.status (at s p k)) (counted b p k k' h ek le)
          ∙ in_status_full s.current_frame.status (at s p k') incomplete (omega arith ∙ full))

  walk_more :
      (ys : List ℕ) (p k fuel : ℕ)
      → Holds s.buffer p (escape ys)
      → p + length (escape ys) ≤ s.buf_size
      → k ≤ p
      → p - k + length ys < needed
      → scan (length (escape ys) + fuel) (at s p k)
        ≡ scan fuel (at s (p + length (escape ys)) (k + separators ys))
  walk_more [] p k fuel h room le few =
      ap (λ n. scan n (at s p k)) {y = fuel} (omega arith)
      ∙ ap₂ (λ p k. scan fuel (at s p k)) (omega arith) (omega arith)
  walk_more (y ∷ ys) p k fuel h room le few = elim (escape_cases y ys) [
    | inl (same, e) ↦
        let (h0, (h1, h2)) = subst (Holds s.buffer p) e h in
        let n = length (escape ys) in
        let len : length (escape (y ∷ ys)) ≡ suc (suc n) = ap length e in
        let seps : separators (y ∷ ys) ≡ suc (separators ys) = ground arith in
        ap (λ m. scan m (at s p k)) {y = suc (suc n + fuel)} (omega arith)
        ∙ (scan_step (suc n + fuel) (at s p k) (omega arith)
            ∙ (ap (scan (suc n + fuel)) (
                  round_more p k (k + 1) separator_byte h0 (omega arith) refl (omega arith)
                    (omega arith))
                ∙ (ap (λ m. scan m (at s (p + 1) (k + 1))) {y = suc (n + fuel)} (omega arith)
                    ∙ (scan_step (n + fuel) (at s (p + 1) (k + 1)) (omega arith)
                        ∙ (ap (scan (n + fuel)) (
                              round_more (p + 1) (k + 1) (k + 1) separator_post_byte h1
                                (omega arith) refl (omega arith) (omega arith))
                            ∙ (walk_more ys (p + 1 + 1) (k + 1) fuel h2 (omega arith) (omega arith)
                                  (omega arith)
                                ∙ ap₂ (λ p k. scan fuel (at s p k)) (omega arith)
                                    (omega arith)))))))
    | inr (other, e) ↦
        let (h0, h1) = subst (Holds s.buffer p) e h in
        let n = length (escape ys) in
        let len : length (escape (y ∷ ys)) ≡ suc n = ap length e in
        let seps : separators (y ∷ ys) ≡ separators ys = ground arith in
        ap (λ m. scan m (at s p k)) {y = suc (n + fuel)} (omega arith)
        ∙ (scan_step (n + fuel) (at s p k) (omega arith)
            ∙ (ap (scan (n + fuel))
                  (round_more p k k y h0 (omega arith) (ground arith) (omega arith) (omega arith))
                ∙ (walk_more ys (p + 1) k fuel h1 (omega arith) (omega arith) (omega arith)
                    ∙ ap₂ (λ p k. scan fuel (at s p k)) (omega arith) (omega arith))))
  ]

  walk_last :
      (y p k fuel : ℕ)
      → Holds s.buffer p (escape (y ∷ []))
      → p + length (escape (y ∷ [])) ≤ s.buf_size
      → k ≤ p
      → p - k + 1 ≡ needed
      → scan (length (escape (y ∷ [])) + fuel) (at s p k)
        ≡ scan fuel (
            taking s.current_frame.status
              (at s (p + length (escape (y ∷ [])) - 1) (k + separators (y ∷ []))))
  walk_last y p k fuel h room le last = elim (escape_cases y []) [
    | inl (same, e) ↦
        let (h0, (h1, _)) = subst (Holds s.buffer p) e h in
        let len : length (escape (y ∷ [])) ≡ 2 = ap length e in
        let seps : separators (y ∷ []) ≡ 1 = ground arith in
        ap (λ m. scan m (at s p k)) {y = suc (suc fuel)} (omega arith)
        ∙ (scan_step (suc fuel) (at s p k) (omega arith)
            ∙ (ap (scan (suc fuel)) (
                  round_more p k (k + 1) separator_byte h0 (omega arith) refl (omega arith)
                    (omega arith))
                ∙ (scan_step fuel (at s (p + 1) (k + 1)) (omega arith)
                    ∙ (ap (scan fuel) (
                          round_full (p + 1) (k + 1) (k + 1) separator_post_byte h1 (omega arith)
                            refl (omega arith) (omega arith))
                        ∙ ap₂ (λ p k. scan fuel (taking s.current_frame.status (at s p k)))
                            (omega arith) (omega arith)))))
    | inr (other, e) ↦
        let (h0, _) = subst (Holds s.buffer p) e h in
        let len : length (escape (y ∷ [])) ≡ 1 = ap length e in
        let seps : separators (y ∷ []) ≡ 0 = ground arith in
        ap (λ m. scan m (at s p k)) {y = suc fuel} (omega arith)
        ∙ (scan_step fuel (at s p k) (omega arith)
            ∙ (ap (scan fuel)
                  (round_full p k k y h0 (omega arith) (ground arith) (omega arith) (omega arith))
                ∙ ap₂ (λ p k. scan fuel (taking s.current_frame.status (at s p k))) (omega arith)
                    (omega arith)))
  ]

  -- Over all that the frame's part needs, the loop ends up at its last byte on the wire, with the
  -- separators counted, and takes it.
  pub walk :
      (ys : List ℕ) (y p k fuel : ℕ)
      → let part = escape (ys ++ y ∷ []) in
        Holds s.buffer p part
        → p + length part ≤ s.buf_size
        → k ≤ p
        → p - k + length (ys ++ y ∷ []) ≡ needed
        → scan (length part + fuel) (at s p k)
          ≡ scan fuel (
              taking s.current_frame.status
                (at s (p + length part - 1) (k + separators (ys ++ y ∷ []))))
  walk ys y p k fuel h room le all =
      let e = escape-append ys (y ∷ []) in
      let (front, back) =
        Holds-append s.buffer p (escape ys) (escape (y ∷ [])) (subst (Holds s.buffer p) e h) in
      let len : length (escape (ys ++ y ∷ [])) ≡ length (escape ys) + length (escape (y ∷ [])) =
        ap length e ∙ length-append (escape ys) (escape (y ∷ [])) in
      let seps = separators-append ys (y ∷ []) in
      let n = length-append ys (y ∷ []) in
      let l1 = length-escape ys in
      let l2 = length-escape (y ∷ []) in
      ap (λ m. scan m (at s p k)) {y = length (escape ys) + (length (escape (y ∷ [])) + fuel)}
        (omega arith)
      ∙ (walk_more ys p k (length (escape (y ∷ [])) + fuel) front (omega arith) le (omega arith)
          ∙ (walk_last y (p + length (escape ys)) (k + separators ys) fuel back (omega arith)
                (omega (arith, separators-le ys)) (omega arith)
              ∙ ap₂ (λ p k. scan fuel (taking s.current_frame.status (at s p k))) (omega arith)
                  (omega arith)))
