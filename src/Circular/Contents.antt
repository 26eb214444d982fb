-- ===== src/Circular/Contents.antt =====
-- A ring as the sequence of the bytes that it holds, oldest first.
use haier_protocol.Prelude.{
  ℕ, ◌*◌, ◌%◌, ◌≤◌, ◌<◌, ◌≡◌, refl, sym, ap, ◌∙◌, List, [], arith, length, get_or, size_mod,
}
use haier_protocol.Circular.{Circular, IsValid, capacity_for, make, index, get_size}
use haier_protocol.Circular.Window.{window, length-window, get_or-window}
use haier_protocol.Circular.Validity.{get_size-le}

abbrev pub contents : Circular → List ℕ
contents c = window c.buffer c.capacity c.head (get_size c)

pub length-contents : (c : Circular) → length (contents c) ≡ get_size c
length-contents c = length-window c.buffer c.capacity c.head (get_size c)

pub make-IsValid :
    (storage : List ℕ) (capacity : ℕ)
    → length storage ≡ capacity_for capacity
    → 2 * capacity ≤ size_mod
    → IsValid (make storage capacity) × (contents (make storage capacity) ≡ [])
unfolding make get_size
make-IsValid storage capacity e h = (ground arith, refl)

-- On a valid ring `operator[]` reads the byte at that place of the sequence, for every place in it.
pub index_lem :
    {c : Circular} (i : ℕ) → IsValid c → i < get_size c → index c i ≡ get_or (contents c) i 0
unfolding index
index_lem {c} i v h = sym (
    get_or-window c.buffer c.capacity (get_size c) c.head i v.head_in (get_size-le v) h
    ∙ ap (λ k. get_or c.buffer (k % c.capacity) 0) (omega (arith, get_size-le v)))
