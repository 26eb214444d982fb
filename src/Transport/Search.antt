-- ===== src/Transport/Search.antt =====
-- protocol_transport.cpp, the search of `process_data` over noise to the start of a frame.
use haier_protocol.Prelude.{
  ℕ, suc, ◌+◌, ◌-◌, ◌≤◌, ◌<◌, ◌≡◌, ◌≢◌, sym, ap, ap₂, ◌∙◌, List, [], ◌∷◌, ◌++◌, arith, length,
  length-append, ltb, ◌==◌, ==-false, ==-refl, if◌then◌else◌, if_true, if_false, Bool-cases, inl,
  inr, size_add, size_sub, size_mod, lt→ltb, ltb-false,
}
use haier_protocol.Circular.{Circular, IsValid, get_size, index}
use haier_protocol.Circular
use haier_protocol.Circular.Validity.{get_size-le}
use haier_protocol.Circular.Contents.{contents, length-contents}
use haier_protocol.Frame.Types.{separator_byte, empty_frame}
use haier_protocol.Transport.State.{TimestampedFrame}
use haier_protocol.Transport.Scan.{Scan, advance, hunt, round, scan}
use haier_protocol.Transport.Unescape.{Holds, Holds-contents}
use haier_protocol.Transport.Walk.{scan_step, at}
use haier_protocol.Transport.Decode.{idle, reading, drop_front}
use haier_protocol.Transport.Noise.{trailing, IsNoiseAfter, IsNoise, trailing-le, trailing-length}

module _ (c : Circular) (start : ℕ) (queue : List TimestampedFrame) where
  -- The search at `p`, with the `k` bytes before it a possible start.
  abbrev pub hunting : ℕ → ℕ → Scan
  hunting p k = record (at (idle c start queue) p 0) { bytes_to_drop = p - k }

  round_separator :
      (p k : ℕ)
      → index c p ≡ separator_byte
      → p < size_mod - 1
      → k ≤ 2
      → k ≤ p
      → round (hunting p k) ≡ hunting (p + 1) (if ltb k 2 then k + 1 else 2)
  unfolding round hunt
  round_separator p k e h two le =
      let s = hunting p k in
      let two_more = size_sub (size_add p 1) (p - k) in
      let count : two_more ≡ k + 1 = omega arith in
      ap advance (if_true _ _ (ap (λ x. x == separator_byte) e ∙ ==-refl separator_byte))
      ∙ elim (Bool-cases (ltb k 2)) [
        | inl few ↦
            ap advance
              (if_false _ _ (ap (λ n. ltb 2 n) count ∙ ltb-false 2 (k + 1) (ground (arith, few))))
            ∙ ap₂ (λ n d. record (at (idle c start queue) n 0) { bytes_to_drop = d }) {y = p + 1}
                (omega arith) (ground (arith, few))
        | inr many ↦
            ap advance
              (if_true _ _ (ap (λ n. ltb 2 n) count ∙ lt→ltb 2 (k + 1) (ground (arith, many))))
            ∙ ap₂ (λ n d. record (at (idle c start queue) n 0) { bytes_to_drop = d }) {y = p + 1}
                (omega arith) (ground (arith, many))
      ]

  round_other :
      (p k b : ℕ)
      → index c p ≡ b
      → b ≢ separator_byte
      → p < size_mod - 1
      → k < 2
      → k ≤ p
      → round (hunting p k) ≡ hunting (p + 1) 0
  unfolding round hunt
  round_other p k b e other h few le =
      ap advance (if_false _ _ (ap (λ x. x == separator_byte) e ∙ ==-false b separator_byte other))
      ∙ ap advance (if_false _ _ (==-false (size_sub p (p - k)) 2 (λ q. omega (arith, q))))
      ∙ ap₂ (λ n d. record (at (idle c start queue) n 0) { bytes_to_drop = d }) {y = p + 1}
          (omega arith) (omega arith)

  pub hunt_noise :
      (bs : List ℕ) (p k fuel : ℕ)
      → Holds c p bs
      → p + length bs ≤ get_size c
      → get_size c < size_mod - 1
      → k ≤ 2
      → k ≤ p
      → IsNoiseAfter k bs
      → scan (length bs + fuel) (hunting p k) ≡ scan fuel (hunting (p + length bs) (trailing k bs))
  hunt_noise [] p k fuel h fits small two le noise =
      ap₂ (λ n q. scan n (hunting q k)) {y = fuel} (omega arith) (omega arith)
  hunt_noise (b ∷ bs) p k fuel (h0, h) fits small two le (start_later, noise) =
      let next = if b == separator_byte then (if ltb k 2 then k + 1 else 2) else 0 in
      let step : round (hunting p k) ≡ hunting (p + 1) next =
        elim (Bool-cases (b == separator_byte)) [
          | inl same ↦
              round_separator p k (h0 ∙ ground (arith, same)) (omega arith) two le
              ∙ ap (hunting (p + 1)) (sym (if_true _ _ same))
          | inr other ↦
              let ne : b ≢ separator_byte = ground (arith, other) in
              round_other p k b h0 ne (omega arith) (start_later ne) le
              ∙ ap (hunting (p + 1)) (sym (if_false _ _ other))
        ] in
      ap (λ n. scan n (hunting p k)) {y = suc (length bs + fuel)} (omega arith)
      ∙ (scan_step (length bs + fuel) (hunting p k) (omega arith)
          ∙ (ap (scan (length bs + fuel)) step
              ∙ (hunt_noise bs (p + 1) next fuel h (omega arith) small (ground (arith, two))
                    (ground (arith, le)) noise
                  ∙ ap (λ q. scan fuel (hunting q (trailing next bs))) (omega arith))))

  -- The byte behind two 0xFF: what was passed over is dropped.
  round_found :
      (n x : ℕ)
      → index c (n + 2) ≡ x
      → x ≢ separator_byte
      → 0 < n
      → n + 3 ≤ get_size c
      → get_size c < size_mod - 1
      → get_size (Circular.drop c n).0 ≡ get_size c - n
      → round (hunting (n + 2) 2) ≡ at (reading (Circular.drop c n).0 empty_frame start queue) 3 0
  unfolding round hunt
  round_found n x e other some_noise fits small size =
      let d = (Circular.drop c n).0 in
      let passed = λ (m : ℕ). record (at (idle c start queue) (n + 2) 0) { bytes_to_drop = m } in
      ap (λ m. round (passed m)) {x = n + 2 - 2} {y = n} (omega arith)
      ∙ ap advance
          (if_false _ _ (ap (λ y. y == separator_byte) e ∙ ==-false x separator_byte other))
      ∙ ap advance (if_true _ _ (ap (λ k. k == 2) {x = size_sub (n + 2) n} {y = 2} (omega arith)))
      ∙ ap advance (if_true _ _ (lt→ltb 0 n some_noise))
      ∙ ap₂ (λ q m. record (at (reading d empty_frame start queue) q 0) { buf_size = m })
          {x = size_add (size_sub (n + 2) n) 1} {y = 3} (omega arith) (omega arith ∙ sym size)

  nothing_passed :
      (x : ℕ)
      → index c 2 ≡ x
      → x ≢ separator_byte
      → round (hunting 2 2) ≡ at (reading c empty_frame start queue) 3 0
  unfolding round hunt
  nothing_passed x e other =
      ap advance (if_false _ _ (ap (λ y. y == separator_byte) e ∙ ==-false x separator_byte other))

  two_more :
      (p k fuel : ℕ)
      → Holds c p (separator_byte ∷ separator_byte ∷ [])
      → p + 2 ≤ get_size c
      → get_size c < size_mod - 1
      → k ≤ 2
      → k ≤ p
      → scan (suc (suc fuel)) (hunting p k) ≡ scan fuel (hunting (p + 2) 2)
  two_more p k fuel (h0, (h1, _)) fits small two le =
      let j = if ltb k 2 then k + 1 else 2 in
      scan_step (suc fuel) (hunting p k) (omega arith)
      ∙ ap (scan (suc fuel)) (round_separator p k h0 (omega arith) two le)
      ∙ scan_step fuel (hunting (p + 1) j) (omega arith)
      ∙ ap (scan fuel)
          (round_separator (p + 1) j h1 (omega arith) (ground (arith, two)) (ground (arith, le)))
      ∙ ap₂ (λ q m. scan fuel (hunting q m)) (omega arith) (ground (arith, two))

-- Over noise and two 0xFF, with the next byte held.
pass_noise :
    (c : Circular) (start : ℕ) (queue : List TimestampedFrame) (noise : List ℕ) (x : ℕ)
    (rest : List ℕ)
    → IsValid c
    → IsNoise noise
    → contents c ≡ noise ++ (separator_byte ∷ separator_byte ∷ x ∷ rest)
    → (length noise + 3 ≤ get_size c)
      × (index c (length noise + 2) ≡ x)
      × (get_size c < size_mod - 1)
      × ((fuel : ℕ)
          → scan (length noise + suc (suc (suc fuel))) (idle c start queue)
            ≡ scan fuel (round (hunting c start queue (length noise + 2) 2)))
pass_noise c start queue noise x rest v quiet e =
    let n = length noise in
    let front = separator_byte ∷ separator_byte ∷ x ∷ [] in
    let whole : get_size c ≡ n + suc (suc (suc (length rest))) =
      sym (length-contents c) ∙ (ap length e ∙ length-append noise (front ++ rest)) in
    let small : get_size c < size_mod - 1 = omega (arith, get_size-le v, v.small, v.large) in
    let held = Holds-contents [] noise (front ++ rest) v e in
    let (h0, (h1, (h2, _))) = Holds-contents noise front rest v e in
    let k = trailing 0 noise in
    (
      omega arith,
      ap (index c) {x = n + 2} {y = n + 1 + 1} (omega arith) ∙ h2,
      small,
      λ fuel.
          hunt_noise c start queue noise 0 0 (suc (suc (suc fuel))) held (omega arith) small
            (omega arith) (omega arith) quiet
          ∙ ap (λ p. scan (suc (suc (suc fuel))) (hunting c start queue p k)) {x = 0 + n} {y = n}
              (omega arith)
          ∙ two_more c start queue n k (suc fuel) (h0, (h1, tt)) (omega arith) small
              (trailing-le noise 0 (omega arith)) (omega (arith, trailing-length noise 0))
          ∙ scan_step fuel (hunting c start queue (n + 2) 2) (omega arith),
    )

-- From noise to the first three bytes of the frame behind it.
pub find_frame :
    (c : Circular) (start : ℕ) (queue : List TimestampedFrame) (noise : List ℕ) (x : ℕ)
    (rest : List ℕ)
    → IsValid c
    → IsNoise noise
    → contents c ≡ noise ++ (separator_byte ∷ separator_byte ∷ x ∷ rest)
    → x ≢ separator_byte
    → (d : Circular) × IsValid d
      × (contents d ≡ separator_byte ∷ separator_byte ∷ x ∷ rest)
      × ((fuel : ℕ)
          → scan (length noise + suc (suc (suc fuel))) (idle c start queue)
            ≡ scan fuel (at (reading d empty_frame start queue) 3 0))
find_frame c start queue [] x rest v quiet e other =
    let (fits, third, small, passed) = pass_noise c start queue [] x rest v quiet e in
    (c, v, e, λ fuel. passed fuel ∙ ap (scan fuel) (nothing_passed c start queue x third other))
find_frame c start queue (b ∷ bs) x rest v quiet e other =
    let noise = b ∷ bs in
    let (fits, third, small, passed) = pass_noise c start queue noise x rest v quiet e in
    let (valid, left, size, _) =
      drop_front noise (separator_byte ∷ separator_byte ∷ x ∷ rest) v e in
    (
      (Circular.drop c (length noise)).0,
      valid,
      left,
      λ fuel.
          passed fuel
          ∙ ap (scan fuel) (
              round_found c start queue (length noise) x third other (omega arith) fits small size),
    )
