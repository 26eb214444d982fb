-- ===== src/Circular/Window.antt =====
-- The bytes in a cyclic stretch of a store, and how writes and index arithmetic act on them.
use native.Mathlib.Nat.{mod-eq_of_lt, mod-eq-sub-mod}
use haier_protocol.Prelude.{
  ℕ, zero, suc, ◌+◌, ◌-◌, ◌%◌, ◌≤◌, ◌<◌, ◌≡◌, ◌⊎◌, inl, inr, refl, sym, ap, ap₂, ◌∙◌, List, [], ◌∷◌,
  ◌++◌, arith, length, get_or, set, take, drop, get_or-set_self, get_or-set_ne, ltb, ltb→lt,
  Bool-cases,
}

-- A sum of two indices goes round the ring at most once.
pub mod_cases :
    (x cap : ℕ) → x < cap + cap → ((x < cap) × (x % cap ≡ x)) ⊎ ((cap ≤ x) × (x % cap ≡ x - cap))
mod_cases x cap h = elim (Bool-cases (ltb x cap)) [
  | inl p ↦ inl (ltb→lt x cap p, mod-eq_of_lt (ltb→lt x cap p))
  | inr p ↦
      let q : cap ≤ x = ground arith in
      inr (q, mod-eq-sub-mod {n = x} {m = cap} q ∙ mod-eq_of_lt (omega arith))
]

module _ (buf : List ℕ) (cap : ℕ) where
  abbrev pub window : ℕ → ℕ → List ℕ
  window h zero = []
  window h (suc n) = get_or buf h 0 ∷ window ((h + 1) % cap) n

  pub length-window : (h n : ℕ) → length (window h n) ≡ n
  length-window h zero = refl
  length-window h (suc n) = ap suc (length-window ((h + 1) % cap) n)

  -- Two steps round the ring are one.
  pub step_add : (h k : ℕ) → h < cap → k < cap → ((h + 1) % cap + k) % cap ≡ (h + suc k) % cap
  step_add h k hh hk =
      ground
        (arith, mod_cases (h + 1) cap, mod_cases ((h + 1) % cap + k) cap, mod_cases (h + suc k) cap)

  pub get_or-window :
      (n h i : ℕ)
      → h < cap
      → n ≤ cap
      → i < n
      → get_or (window h n) i 0 ≡ get_or buf ((h + i) % cap) 0
  get_or-window zero h i hh hn hi = absurd (omega arith)
  get_or-window (suc n) h zero hh hn hi =
      ap (λ k. get_or buf k 0) (sym (mod-eq_of_lt (omega arith)) ∙ ap (λ k. k % cap) (omega arith))
  get_or-window (suc n) h (suc i) hh hn hi =
      get_or-window n ((h + 1) % cap) i (omega arith) (omega arith) (omega arith)
      ∙ ap (λ k. get_or buf k 0) (step_add h i hh (omega arith))

  pub drop-window :
      (k h n : ℕ) → h < cap → k ≤ n → n ≤ cap → drop k (window h n) ≡ window ((h + k) % cap) (n - k)
  drop-window zero h n hh hk hn =
      ap₂ window (sym (mod-eq_of_lt hh) ∙ ap (λ k. k % cap) (omega arith)) (omega arith)
  drop-window (suc k) h zero hh hk hn = absurd (omega arith)
  drop-window (suc k) h (suc n) hh hk hn =
      drop-window k ((h + 1) % cap) n (omega arith) (omega arith) (omega arith)
      ∙ ap₂ window (step_add h k hh (omega arith)) (omega arith)

  pub take-window : (k h n : ℕ) → k ≤ n → take k (window h n) ≡ window h k
  take-window zero h n hk = refl
  take-window (suc k) h zero hk = absurd (omega arith)
  take-window (suc k) h (suc n) hk =
      ap (◌∷◌ (get_or buf h 0)) (take-window k ((h + 1) % cap) n (omega arith))

-- Writing just past a window extends it by that byte.
pub window-set :
    (buf : List ℕ) (cap x n h : ℕ) {i : ℕ}
    → cap ≤ length buf
    → h < cap
    → n < cap
    → i ≡ (h + n) % cap
    → window (set buf i x) cap h (suc n) ≡ window buf cap h n ++ x ∷ []
window-set buf cap x zero h {i} hs hh hn e =
    let e' : i ≡ h = e ∙ (ap (λ k. k % cap) (omega arith) ∙ mod-eq_of_lt hh) in
    rw (e', get_or-set_self buf h x 0 (omega arith))
window-set buf cap x (suc n) h {i} hs hh hn e =
    ap₂ ◌∷◌ (get_or-set_ne buf x 0 (ground (arith, mod_cases (h + suc n) cap))) (
      window-set buf cap x n ((h + 1) % cap) hs (omega arith) (omega arith)
        (e ∙ sym (step_add buf cap h n hh (omega arith))))
