-- ===== src/Protocol/Maps.antt =====
-- The handler maps of haier_protocol.cpp: setting, removing and finding a handler.
use haier_protocol.Prelude.{
  ℕ, ◌≡◌, ◌≢◌, refl, sym, ap, ◌∙◌, [], ◌∷◌, none, some, ◌==◌, arith, Bool-cases, ◌⊎◌, inl, inr,
}
use haier_protocol.Protocol.State.{Handler, HandlersMap, find, assign, erase}

-- In a `std::map` no key stands twice.
abbrev pub IsMap : HandlersMap → Type 0
IsMap [] = Unit
IsMap ((k, h) ∷ m) = (find k m ≡ none) × IsMap m

-- Whether the entry at the front is the one that is looked for.
find-front :
    (j k : ℕ) (h : Handler) (m : HandlersMap)
    → ((j ≡ k) × (find k ((j, h) ∷ m) ≡ some h)) ⊎ ((j ≢ k) × (find k ((j, h) ∷ m) ≡ find k m))
unfolding find
find-front j k h m = elim (Bool-cases (j == k)) [
  | inl same ↦ inl (ground (arith, same), rw same)
  | inr other ↦ inr (ground (arith, other), rw other)
]

assign-front :
    (j k : ℕ) (g h : Handler) (m : HandlersMap)
    → ((j ≡ k) × (assign k h ((j, g) ∷ m) ≡ (k, h) ∷ m))
      ⊎ ((j ≢ k) × (assign k h ((j, g) ∷ m) ≡ (j, g) ∷ assign k h m))
unfolding assign
assign-front j k g h m = elim (Bool-cases (j == k)) [
  | inl same ↦ inl (ground (arith, same), rw same)
  | inr other ↦ inr (ground (arith, other), rw other)
]

erase-front :
    (j k : ℕ) (g : Handler) (m : HandlersMap)
    → ((j ≡ k) × (erase k ((j, g) ∷ m) ≡ m))
      ⊎ ((j ≢ k) × (erase k ((j, g) ∷ m) ≡ (j, g) ∷ erase k m))
unfolding erase
erase-front j k g m = elim (Bool-cases (j == k)) [
  | inl same ↦ inl (ground (arith, same), rw same)
  | inr other ↦ inr (ground (arith, other), rw other)
]

assign-nil : (k : ℕ) (h : Handler) → assign k h [] ≡ (k, h) ∷ []
unfolding assign
assign-nil k h = refl

find-nil : (k : ℕ) → find k [] ≡ none
unfolding find
find-nil k = refl

erase-nil : (k : ℕ) → erase k [] ≡ []
unfolding erase
erase-nil k = refl

-- A handler that was set is found under its key, and those under the other keys are as before.
pub find-assign :
    (k j : ℕ) (h : Handler) (m : HandlersMap)
    → (find k (assign k h m) ≡ some h) × (k ≢ j → find j (assign k h m) ≡ find j m)
find-assign k j h [] =
    rw (assign-nil k h) (grind (arith, find-front k k h [], find-front k j h [], find-nil j))
find-assign k j h ((i, g) ∷ m) =
    let (found, others) = find-assign k j h m in
    elim (assign-front i k g h m) [
      | inl (same, e) ↦
          rw e (grind (arith, find-front k k h m, find-front k j h m, find-front i j g m))
      | inr (other, e) ↦ rw e (
          grind (
            arith,
            find-front i k g (assign k h m),
            find-front i j g (assign k h m),
            find-front i j g m,
          ))
    ]

assign-IsMap : (k : ℕ) (h : Handler) (m : HandlersMap) → IsMap m → IsMap (assign k h m)
assign-IsMap k h [] v = rw (assign-nil k h) (find-nil k, tt)
assign-IsMap k h ((i, g) ∷ m) v = elim (assign-front i k g h m) [
  | inl (same, e) ↦ rw (e, ← same) v
  | inr (other, e) ↦
      rw e ((find-assign k i h m).1 (λ e. other (sym e)) ∙ v.0, assign-IsMap k h m v.1)
]

-- A handler that was removed is found no more, and those under the other keys are as before.
pub find-erase :
    (k j : ℕ) (m : HandlersMap)
    → IsMap m
    → (find k (erase k m) ≡ none) × (k ≢ j → find j (erase k m) ≡ find j m)
find-erase k j [] v = rw (erase-nil k) (find-nil k, λ _. refl)
find-erase k j ((i, g) ∷ m) v =
    let (found, others) = find-erase k j m v.1 in
    elim (erase-front i k g m) [
      | inl (same, e) ↦
          rw e (ap (λ i. find i m) (sym same) ∙ v.0, λ other. grind (arith, find-front i j g m))
      | inr (other, e) ↦ rw e (
          grind
            (arith, find-front i k g (erase k m), find-front i j g (erase k m), find-front i j g m))
    ]

erase-IsMap : (k : ℕ) (m : HandlersMap) → IsMap m → IsMap (erase k m)
erase-IsMap k [] v = rw (erase-nil k) tt
erase-IsMap k ((i, g) ∷ m) v = elim (erase-front i k g m) [
  | inl (same, e) ↦ rw e v.1
  | inr (other, e) ↦ rw e ((find-erase k i m v.1).1 (λ e. other (sym e)) ∙ v.0, erase-IsMap k m v.1)
]

-- After a handler is set in a map where no key stands twice, none does, the handler is found under its
-- key, and what is found under every other key is as before.
assign_handler_lem :
    (k : ℕ) (h : Handler) (m : HandlersMap)
    → IsMap m
    → IsMap (assign k h m)
      × (find k (assign k h m) ≡ some h)
      × ((j : ℕ) → k ≢ j → find j (assign k h m) ≡ find j m)
assign_handler_lem k h m v =
    (assign-IsMap k h m v, (find-assign k k h m).0, λ j. (find-assign k j h m).1)

-- After a handler is removed from a map where no key stands twice, none does, nothing is found under
-- its key, and what is found under every other key is as before.
pub erase_handler_lem :
    (k : ℕ) (m : HandlersMap)
    → IsMap m
    → IsMap (erase k m)
      × (find k (erase k m) ≡ none)
      × ((j : ℕ) → k ≢ j → find j (erase k m) ≡ find j m)
erase_handler_lem k m v = (erase-IsMap k m v, (find-erase k k m v).0, λ j. (find-erase k j m v).1)
