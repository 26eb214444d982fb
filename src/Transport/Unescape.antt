-- ===== src/Transport/Unescape.antt =====
-- protocol_transport.cpp, the loops that take post bytes out, on a buffer that holds an escaped list.
use haier_protocol.Prelude.{
  ℕ, suc, ◌+◌, ◌-◌, ◌<◌, ◌≡◌, ◌≢◌, ◌⊎◌, inl, inr, refl, sym, ap, subst, ap₂, ◌∙◌, Bool, true, false,
  not, ◌||◌, List, [], ◌∷◌, ◌++◌, append_assoc, arith, length, length-append, get_or,
  get_or-append_right, ◌==◌, ==-false,
}
use haier_protocol.Circular.{Circular, IsValid, get_size, index}
use haier_protocol.Circular.Contents.{contents, length-contents, index_lem}
use haier_protocol.Frame.Types.{separator_byte, separator_post_byte}
use haier_protocol.Frame.Wire.{escape, escape_cases}
use haier_protocol.Transport.Scan.{unescape_loop}

-- The bytes from position `p` on.
abbrev pub Holds : Circular → ℕ → List ℕ → Type 0
Holds c p [] = Unit
Holds c p (y ∷ ys) = (index c p ≡ y) × Holds c (p + 1) ys

pub Holds-contents :
    {c : Circular} (pre ys rest : List ℕ)
    → IsValid c
    → contents c ≡ pre ++ (ys ++ rest)
    → Holds c (length pre) ys
Holds-contents pre [] rest v e = tt
Holds-contents {c} pre (y ∷ ys) rest v e =
    let whole = length-append pre (y ∷ ys ++ rest) in
    let size : get_size c ≡ length pre + length (y ∷ (ys ++ rest)) =
      sym (length-contents c) ∙ (ap length e ∙ length-append pre (y ∷ (ys ++ rest))) in
    (
      index_lem (length pre) v (omega (arith, size))
          ∙ (ap (λ l. get_or l (length pre) 0) e
              ∙ (ap (λ k. get_or (pre ++ (y ∷ (ys ++ rest))) k 0) (omega arith)
                  ∙ get_or-append_right pre (y ∷ (ys ++ rest)) 0 0)),
      subst (λ k. Holds c k ys) (length-append pre (y ∷ []))
          (Holds-contents (pre ++ y ∷ []) ys rest v
            (e ∙ sym (append_assoc pre (y ∷ []) (ys ++ rest)))),
    )

pub Holds-append :
    (c : Circular) (p : ℕ) (xs ys : List ℕ)
    → Holds c p (xs ++ ys)
    → Holds c p xs × Holds c (p + length xs) ys
Holds-append c p [] ys h = (tt, subst (λ k. Holds c k ys) (omega arith) h)
Holds-append c p (x ∷ xs) ys h =
    let (front, back) = Holds-append c (p + 1) xs ys h.1 in
    ((h.0, front), subst (λ k. Holds c k ys) (omega arith) back)

-- A byte is taken where it is the first, or none behind a 0xFF.
abbrev pub IsFront : Circular → ℕ → Type 0
IsFront c b = (b ≡ 0) ⊎ (index c (b - 1) ≢ separator_byte)

front_test :
    (c : Circular) (b : ℕ)
    → IsFront c b
    → (b == 0 || not (index c (b - 1) == separator_byte)) ≡ true
front_test c b (inl e) = ground (arith, e)
front_test c b (inr other) =
    ap (λ k. b == 0 || not k) (==-false (index c (b - 1)) separator_byte other) ∙ or_true (b == 0)
  where
    or_true : (a : Bool) → (a || true) ≡ true
    or_true true = refl
    or_true false = refl

abbrev with_byte : ℕ → Bool × List ℕ × ℕ → Bool × List ℕ × ℕ
with_byte y (correct, bytes, end) = (correct, y ∷ bytes, end)

taken :
    (c : Circular) (n b : ℕ)
    → IsFront c b
    → unescape_loop c (suc n) b ≡ with_byte (index c b) (unescape_loop c n (b + 1))
unfolding unescape_loop
taken c n b front = rw (front_test c b front)

skipped :
    (c : Circular) (n b : ℕ)
    → 0 < b
    → index c (b - 1) ≡ separator_byte
    → index c b ≡ separator_post_byte
    → unescape_loop c (suc n) b ≡ unescape_loop c n (b + 1)
unfolding unescape_loop
skipped c n b h e1 e2 = rw (e1, e2, ==-false b 0 (omega arith))

apart : separator_post_byte ≢ separator_byte
apart e = omega arith

-- Where the ring holds an escaped list from `b` on, and `b` is 0 or the byte in front is no 0xFF, the
-- loop that takes post bytes out finds all of them right, gives the list back and stops at its end.
pub unescape_loop-escape :
    (c : Circular) (b : ℕ) (ys : List ℕ)
    → Holds c b (escape ys)
    → IsFront c b
    → unescape_loop c (length (escape ys)) b ≡ (true, ys, b + length (escape ys))
unescape_loop-escape c b [] h front = unfold unescape_loop in ap (λ k. (true, [], k)) (omega arith)
unescape_loop-escape c b (y ∷ ys) h front = elim (escape_cases y ys) [
  | inl (same, e) ↦
      let (h0, (h1, h2)) = subst (Holds c b) e h in
      let back : index c (b + 1 - 1) ≡ separator_byte = ap (index c) (omega arith) ∙ h0 in
      let post : index c (b + 1 + 1 - 1) ≡ separator_post_byte = ap (index c) (omega arith) ∙ h1 in
      let rest = unescape_loop-escape c (b + 1 + 1) ys h2 (inr (λ k. apart (sym post ∙ k))) in
      let n = length (escape ys) in
      rw e (
        taken c (suc n) b front
        ∙ (ap (with_byte (index c b)) (skipped c n (b + 1) (omega arith) back h1 ∙ rest)
            ∙ ap₂ (λ x k. (true, x ∷ ys, k)) (h0 ∙ sym same) (omega arith)))
  | inr (other, e) ↦
      let (h0, h1) = subst (Holds c b) e h in
      let here : index c (b + 1 - 1) ≡ y = ap (index c) (omega arith) ∙ h0 in
      let rest = unescape_loop-escape c (b + 1) ys h1 (inr (λ k. other (sym here ∙ k))) in
      rw e (
        taken c (length (escape ys)) b front
        ∙ (ap (with_byte (index c b)) rest ∙ ap₂ (λ x k. (true, x ∷ ys, k)) h0 (omega arith)))
]
