-- ===== src/Transport/Noise.antt =====
-- protocol_transport.cpp, the search of `process_data` over bytes that are no frame.
use haier_protocol.Prelude.{
  ℕ, zero, suc, ◌+◌, ◌-◌, ◌≤◌, ◌<◌, ◌≡◌, ◌≢◌, refl, sym, ap, ap₂, subst, ◌∙◌, true, false, List, [],
  ◌∷◌, ◌++◌, arith, length, length-append, ltb, ◌==◌, ==-false, ==-refl, if◌then◌else◌, if_true,
  if_false, Bool-cases, inl, inr, size_add, size_sub, size_mod, drop-append_self, replicate, lt→ltb,
  ltb-false, append_assoc, append-nil, length-replicate, drop-add,
}
use haier_protocol.Prelude
use haier_protocol.Frame.Types.{separator_byte}

-- How many 0xFF in a row end a list of bytes, two at most, with `k` in front of it.
abbrev pub trailing : ℕ → List ℕ → ℕ
trailing k [] = k
trailing k (b ∷ bs) =
    trailing (if b == separator_byte then (if ltb k 2 then k + 1 else 2) else 0) bs

-- Bytes among which no frame begins: two 0xFF or more in a row are followed by nothing.
abbrev pub IsNoiseAfter : ℕ → List ℕ → Type 0
IsNoiseAfter k [] = Unit
IsNoiseAfter k (b ∷ bs) =
    (b ≢ separator_byte → k < 2)
    × IsNoiseAfter (if b == separator_byte then (if ltb k 2 then k + 1 else 2) else 0) bs

abbrev pub IsNoise : List ℕ → Type 0
IsNoise = IsNoiseAfter 0

pub trailing-le : (bs : List ℕ) (k : ℕ) → k ≤ 2 → trailing k bs ≤ 2
trailing-le [] k h = h
trailing-le (b ∷ bs) k h = trailing-le bs _ (ground (arith, h))

pub trailing-length : (bs : List ℕ) (k : ℕ) → trailing k bs ≤ k + length bs
trailing-length [] k = omega arith
trailing-length (b ∷ bs) k =
    ground (
      arith,
      trailing-length bs (if b == separator_byte then (if ltb k 2 then k + 1 else 2) else 0),
    )

replicate_next : (k : ℕ) (x : ℕ) (l : List ℕ) → replicate k x ++ x ∷ l ≡ x ∷ (replicate k x ++ l)
replicate_next zero x l = refl
replicate_next (suc k) x l = ap (◌∷◌ x) (replicate_next k x l)

-- What the search keeps of the bytes it has passed.
pub drop-trailing :
    (bs : List ℕ) (k : ℕ)
    → k ≤ 2
    → Prelude.drop (k + length bs - trailing k bs) (replicate k separator_byte ++ bs)
      ≡ replicate (trailing k bs) separator_byte
drop-trailing [] k h =
    ap (λ n. Prelude.drop n (replicate k separator_byte ++ [])) {y = 0} (omega arith)
    ∙ append-nil (replicate k separator_byte)
drop-trailing (b ∷ bs) k h = elim (Bool-cases (b == separator_byte)) [
  | inr other ↦
      let n = length bs - trailing 0 bs in
      let part = replicate k separator_byte ++ b ∷ [] in
      let len : length part ≡ k + 1 =
        length-append (replicate k separator_byte) (b ∷ [])
        ∙ ap (λ m. m + 1) (length-replicate k separator_byte) in
      let le = trailing-length bs 0 in
      let here : trailing k (b ∷ bs) ≡ trailing 0 bs =
        ap (λ j. trailing j bs) (if_false _ _ other) in
      ap₂ Prelude.drop {y = length part + n} (omega arith)
        (sym (append_assoc (replicate k separator_byte) (b ∷ []) bs))
      ∙ drop-add (length part) n (part ++ bs)
      ∙ ap (Prelude.drop n) (drop-append_self part bs)
      ∙ ap (λ m. Prelude.drop m bs) {y = 0 + length bs - trailing 0 bs} (omega arith)
      ∙ drop-trailing bs 0 (omega arith)
      ∙ ap (λ m. replicate m separator_byte) (sym here)
  | inl same ↦
      let is_separator : b ≡ separator_byte = ground (arith, same) in
      let shifted : replicate k separator_byte ++ b ∷ bs
          ≡ separator_byte ∷ (replicate k separator_byte ++ bs) =
        ap (λ x. replicate k separator_byte ++ x ∷ bs) is_separator
        ∙ replicate_next k separator_byte bs in
      elim (Bool-cases (ltb k 2)) [
        | inl few ↦
            let here : trailing k (b ∷ bs) ≡ trailing (suc k) bs =
              ap (λ j. trailing j bs) (ground (arith, same, few)) in
            ap₂ Prelude.drop {y = suc k + length bs - trailing (suc k) bs} (omega arith) shifted
            ∙ drop-trailing bs (suc k) (ground (arith, few))
            ∙ ap (λ m. replicate m separator_byte) (sym here)
        | inr many ↦
            let two : k ≡ 2 = ground (arith, many, h) in
            let here : trailing k (b ∷ bs) ≡ trailing k bs =
              ap (λ j. trailing j bs) (ground (arith, same, many, two)) in
            let le = trailing-length bs k in
            ap₂ Prelude.drop {y = suc (k + length bs - trailing k bs)} (omega arith) shifted
            ∙ drop-trailing bs k h
            ∙ ap (λ m. replicate m separator_byte) (sym here)
      ]
]
