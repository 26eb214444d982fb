-- ===== src/Circular/Loops.antt =====
-- The loops of circular_buffer.h: what they write and read, seen through `window`.
use haier_protocol.Prelude.{
  ℕ, zero, suc, ◌+◌, ◌*◌, ◌%◌, ◌≤◌, ◌<◌, ◌≡◌, refl, sym, ap, ◌∙◌, List, [], ◌∷◌, ◌++◌, arith,
  append-nil, append_assoc, length, get_or, set, length-set, size_mod, store_at,
}
use haier_protocol.Circular.{push_loop, pop_loop, next}
use haier_protocol.Circular.Window.{window, mod_cases, window-set, step_add}

pub length-push_loop :
    (cap : ℕ) (buf : List ℕ) (t : ℕ) (xs : List ℕ) → length (push_loop cap buf t xs).0 ≡ length buf
unfolding push_loop
length-push_loop cap buf t [] = refl
length-push_loop cap buf t (x ∷ xs) =
    length-push_loop cap (set buf t x) (next cap t) xs ∙ length-set buf t x

-- The loop of `push` ends at the index past what it wrote.
pub push_loop-tail :
    (cap : ℕ) (buf : List ℕ) (t : ℕ) (xs : List ℕ)
    → t < cap
    → 2 * cap ≤ size_mod
    → length xs ≤ cap
    → (push_loop cap buf t xs).1 ≡ (t + length xs) % cap
unfolding push_loop
push_loop-tail cap buf t [] ht hc hx = ground (arith, mod_cases (t + 0) cap)
push_loop-tail cap buf t (x ∷ xs) ht hc hx =
    ground (arith, push_loop-tail cap (set buf t x) (next cap t) xs, step_add buf cap t (length xs))

-- It appends what it writes to the window that ends where it starts.
pub push_loop-window :
    (cap h n : ℕ) (buf : List ℕ) {t : ℕ} (xs : List ℕ)
    → cap ≤ length buf
    → h < cap
    → 2 * cap ≤ size_mod
    → n + length xs ≤ cap
    → t ≡ (h + n) % cap
    → window (push_loop cap buf t xs).0 cap h (n + length xs) ≡ window buf cap h n ++ xs
unfolding push_loop
push_loop-window cap h n buf [] hs hh hc hn e =
    ap (window buf cap h) (omega arith) ∙ sym (append-nil (window buf cap h n))
push_loop-window cap h n buf {t} (x ∷ xs) hs hh hc hn e =
    ap (window _ cap h) (omega arith)
    ∙ (push_loop-window cap h (suc n) (set buf t x) xs (omega (arith, length-set buf t x)) hh hc
          (omega arith)
          (ground (arith, mod_cases (h + n) cap, mod_cases (t + 1) cap, mod_cases (h + suc n) cap))
        ∙ (ap (λ w. w ++ xs) (window-set buf cap x n h hs hh (omega arith) e)
            ∙ append_assoc (window buf cap h n) (x ∷ []) xs))

-- Before the end of the storage a pointer that runs on writes as the loop of `push` does.
pub store_at-push_loop :
    (cap : ℕ) (buf : List ℕ) (t : ℕ) (xs : List ℕ)
    → t + length xs ≤ cap
    → 2 * cap ≤ size_mod
    → store_at buf t xs ≡ (push_loop cap buf t xs).0
unfolding push_loop store_at
store_at-push_loop cap buf t [] h hc = refl
store_at-push_loop cap buf t (x ∷ []) h hc = refl
store_at-push_loop cap buf t (x ∷ y ∷ xs) h hc =
    store_at-push_loop cap (set buf t x) (t + 1) (y ∷ xs) (omega arith) hc
    ∙ ap (λ k. (push_loop cap (set buf t x) k (y ∷ xs)).0) (ground (arith, mod_cases (t + 1) cap))

-- The loop of `pop` reads the window, and ends past it.
pub pop_loop_lem :
    (cap : ℕ) (buf : List ℕ) (h n : ℕ)
    → h < cap
    → 2 * cap ≤ size_mod
    → n ≤ cap
    → ((pop_loop cap buf h n).0 ≡ window buf cap h n) × ((pop_loop cap buf h n).1 ≡ (h + n) % cap)
unfolding pop_loop
pop_loop_lem cap buf h zero hh hc hn = (refl, ground (arith, mod_cases (h + 0) cap))
pop_loop_lem cap buf h (suc n) hh hc hn =
    let ih = pop_loop_lem cap buf ((h + 1) % cap) n (omega arith) hc (omega arith) in
    let e : next cap h ≡ (h + 1) % cap = ap (λ k. k % cap) (omega arith) in
    (rw e (ap (◌∷◌ (get_or buf h 0)) ih.0), rw e (ih.1 ∙ step_add buf cap h n hh hn))
