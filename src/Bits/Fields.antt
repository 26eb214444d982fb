-- ===== src/Bits/Fields.antt =====
-- The members of a packet structure: what an assignment to one changes, and what it leaves.
use haier_protocol.Prelude.{
  ℕ, zero, suc, ◌+◌, ◌^◌, ◌%◌, ◌≤◌, ◌<◌, ◌≡◌, ◌≢◌, sym, ap, ◌∙◌, ◌⊎◌, inl, inr, arith, List, [],
  ◌∷◌, length, get_or, set, length-set, get_or-set_self, get_or-set_ne, All, IsByte, ◌==◌,
  Bool-cases,
}
use haier_protocol.Bits.{BitField, extract, insert, load, assign}
use haier_protocol.Bits.Digits.{
  extract-insert, extract-insert_above, extract-insert_below, insert-IsByte,
}

-- The field lies in one byte of a structure of `size` bytes.
abbrev pub Fits : ℕ → BitField → Type 0
Fits size f = (f.position < size) × (f.shift + f.width ≤ 8)

-- The fields have no digit in common.
abbrev pub Apart : BitField → BitField → Type 0
Apart f g =
    (f.position ≢ g.position) ⊎ ((f.shift + f.width ≤ g.shift) ⊎ (g.shift + g.width ≤ f.shift))

-- A structure of `size` bytes.
abbrev pub IsPacket : ℕ → List ℕ → Type 0
IsPacket size packet = (length packet ≡ size) × All IsByte packet

pub load-assign :
    (f : BitField) (value : ℕ) (packet : List ℕ)
    → f.position < length packet
    → load f (assign f value packet) ≡ value % 2 ^ f.width
unfolding load assign
load-assign f value packet h =
    ap (extract f.shift f.width) (
      get_or-set_self packet f.position (insert f.shift f.width value (get_or packet f.position 0))
        0 h)
    ∙ extract-insert f.shift f.width value (get_or packet f.position 0)

module _ (f g : BitField) (value : ℕ) (packet : List ℕ) where
  abbrev old : ℕ
  old = get_or packet f.position 0

  abbrev new : ℕ
  new = insert f.shift f.width value old

  load-assign_elsewhere : f.position ≢ g.position → load g (assign f value packet) ≡ load g packet
  unfolding load assign
  load-assign_elsewhere ne = ap (extract g.shift g.width) (get_or-set_ne packet new 0 ne)

  other_digits :
      (f.shift + f.width ≤ g.shift) ⊎ (g.shift + g.width ≤ f.shift)
      → extract g.shift g.width new ≡ extract g.shift g.width old
  other_digits (inl h) = extract-insert_above f.shift f.width value old g.shift g.width h
  other_digits (inr h) = extract-insert_below f.shift f.width value old g.shift g.width h

  load-assign_here :
      f.position < length packet
      → f.position ≡ g.position
      → (f.shift + f.width ≤ g.shift) ⊎ (g.shift + g.width ≤ f.shift)
      → load g (assign f value packet) ≡ load g packet
  unfolding load assign
  load-assign_here h e a =
      ap (λ i. extract g.shift g.width (get_or (set packet f.position new) i 0)) (sym e)
      ∙ (ap (extract g.shift g.width) (get_or-set_self packet f.position new 0 h)
          ∙ (other_digits a ∙ ap (λ i. extract g.shift g.width (get_or packet i 0)) e))

  pub load-assign-Apart :
      f.position < length packet → Apart f g → load g (assign f value packet) ≡ load g packet
  load-assign-Apart h (inl ne) = load-assign_elsewhere ne
  load-assign-Apart h (inr a) = elim (Bool-cases (f.position == g.position)) [
    | inl e ↦ load-assign_here h (ground (arith, e)) a
    | inr e ↦ load-assign_elsewhere (λ same. absurd (ground (arith, e, same)))
  ]

pub All-set :
    (packet : List ℕ) (i v : ℕ) → All IsByte packet → IsByte v → All IsByte (set packet i v)
All-set [] i v h b = tt
All-set (x ∷ xs) zero v h b = (b, h.1)
All-set (x ∷ xs) (suc i) v h b = (h.0, All-set xs i v h.1 b)

pub IsByte-get_or : (packet : List ℕ) (i : ℕ) → All IsByte packet → IsByte (get_or packet i 0)
IsByte-get_or [] i h = omega arith
IsByte-get_or (x ∷ xs) zero h = h.0
IsByte-get_or (x ∷ xs) (suc i) h = IsByte-get_or xs i h.1

pub assign-IsPacket :
    (size : ℕ) (f : BitField) (value : ℕ) (packet : List ℕ)
    → f.shift + f.width ≤ 8
    → IsPacket size packet
    → IsPacket size (assign f value packet)
unfolding assign
assign-IsPacket size f value packet w h =
    let new = insert f.shift f.width value (get_or packet f.position 0) in
    (
      length-set packet f.position new ∙ h.0,
      All-set packet f.position new h.1 (
          insert-IsByte f.shift f.width value (get_or packet f.position 0) w
            (IsByte-get_or packet f.position h.1)),
    )
