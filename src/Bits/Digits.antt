-- ===== src/Bits/Digits.antt =====
-- Digits of a byte between two powers of two: reading them after they were exchanged.
use native.Mathlib.Nat.{
  mul-add-div_right, div-eq_of_lt, mod-lt, div-div-eq-div-mul, mul-add-mod_self_right, mod-eq_of_lt,
  div-add-mod', mul_assoc, mul_comm, pow-succ', one-le-pow, div-lt_iff_lt-mul, add-mul,
}
use haier_protocol.Prelude.{
  ℕ, zero, suc, ◌+◌, ◌-◌, ◌*◌, ◌/◌, ◌%◌, ◌^◌, ◌≤◌, ◌<◌, ◌≡◌, sym, ap, ◌∙◌, arith, subst, IsByte,
}
use haier_protocol.Bits.{extract, insert}

pub pow-add : (a b : ℕ) → 2 ^ (a + b) ≡ 2 ^ a * 2 ^ b
pow-add zero b = ap (λ n. 2 ^ n) {x = 0 + b} {y = b} (omega arith) ∙ omega arith
pow-add (suc a) b =
    ap (λ n. 2 ^ n) {y = suc (a + b)} (omega arith)
    ∙ (pow-succ' 2 (a + b)
        ∙ (ap (λ n. 2 * n) (pow-add a b)
            ∙ (sym (mul_assoc 2 (2 ^ a) (2 ^ b)) ∙ ap (λ n. n * 2 ^ b) (sym (pow-succ' 2 a)))))

pub pow-pos : (n : ℕ) → 0 < 2 ^ n
pow-pos n = one-le-pow n 2 (omega arith)

-- A number in three parts: `h` above `l * m`, `d` between, `r` below `l`.
module _ (l m : ℕ) (lp : 0 < l) (mp : 0 < m) where
  abbrev three : ℕ → ℕ → ℕ → ℕ
  three h d r = h * (l * m) + d * l + r

  regroup : (h d r : ℕ) → three h d r ≡ (h * m + d) * l + r
  regroup h d r =
      ap (λ n. n + r)
        (ap (λ n. n + d * l) (ap (λ n. h * n) (mul_comm l m) ∙ sym (mul_assoc h m l))
          ∙ sym (add-mul (h * m) d l))

  three-quotient : (h d r : ℕ) → r < l → three h d r / l ≡ h * m + d
  three-quotient h d r p =
      ap (λ n. n / l) (regroup h d r)
      ∙ (mul-add-div_right lp (h * m + d) r ∙ omega (arith, div-eq_of_lt p))

  pub middle : (h d r : ℕ) → d < m → r < l → three h d r / l % m ≡ d
  middle h d r q p =
      ap (λ n. n % m) (three-quotient h d r p) ∙ (mul-add-mod_self_right h m d ∙ mod-eq_of_lt q)

  pub upper : (h d r : ℕ) → d < m → r < l → three h d r / (l * m) ≡ h
  upper h d r q p =
      sym (div-div-eq-div-mul (three h d r) l m)
      ∙ (ap (λ n. n / m) (three-quotient h d r p)
          ∙ (mul-add-div_right mp h d ∙ omega (arith, div-eq_of_lt q)))

  pub lower : (h d r : ℕ) → r < l → three h d r % l ≡ r
  lower h d r p =
      ap (λ n. n % l) (regroup h d r) ∙ (mul-add-mod_self_right (h * m + d) l r ∙ mod-eq_of_lt p)

-- A digit depends only on the number modulo a multiple.
shuffle : (q a b c : ℕ) → q * (a * b * c) ≡ q * c * b * a
shuffle q a b c =
    ap (λ n. q * n) (mul_comm (a * b) c ∙ (ap (λ n. c * n) (mul_comm a b) ∙ sym (mul_assoc c b a)))
    ∙ (sym (mul_assoc q (c * b) a) ∙ ap (λ n. n * a) (sym (mul_assoc q c b)))

digit-mod : (a b c x : ℕ) → 0 < a → x % (a * b * c) / a % b ≡ x / a % b
digit-mod a b c x h =
    let q = x / (a * b * c) in
    let r = x % (a * b * c) in
    sym (
      ap (λ n. n / a % b) (sym (div-add-mod' x (a * b * c)) ∙ ap (λ n. n + r) (shuffle q a b c))
      ∙ (ap (λ n. n % b) (mul-add-div_right h (q * c * b) r)
          ∙ mul-add-mod_self_right (q * c) b (r / a)))

module _ (shift width value byte : ℕ) where
  pub extract-insert : extract shift width (insert shift width value byte) ≡ value % 2 ^ width
  unfolding extract insert
  extract-insert =
      middle (2 ^ shift) (2 ^ width) (pow-pos shift) (pow-pos width)
        (byte / (2 ^ shift * 2 ^ width)) (value % 2 ^ width) (byte % 2 ^ shift)
        (mod-lt value (pow-pos width)) (mod-lt byte (pow-pos shift))

  -- The digits above and below the field stay.
  insert_above :
      insert shift width value byte / (2 ^ shift * 2 ^ width) ≡ byte / (2 ^ shift * 2 ^ width)
  unfolding insert
  insert_above =
      upper (2 ^ shift) (2 ^ width) (pow-pos shift) (pow-pos width) (byte / (2 ^ shift * 2 ^ width))
        (value % 2 ^ width) (byte % 2 ^ shift) (mod-lt value (pow-pos width))
        (mod-lt byte (pow-pos shift))

  insert_below : insert shift width value byte % 2 ^ shift ≡ byte % 2 ^ shift
  unfolding insert
  insert_below =
      lower (2 ^ shift) (2 ^ width) (pow-pos shift) (pow-pos width) (byte / (2 ^ shift * 2 ^ width))
        (value % 2 ^ width) (byte % 2 ^ shift) (mod-lt byte (pow-pos shift))

  pub extract-insert_above :
      (s w : ℕ) → shift + width ≤ s → extract s w (insert shift width value byte) ≡ extract s w byte
  unfolding extract
  extract-insert_above s w h =
      let split : 2 ^ s ≡ 2 ^ shift * 2 ^ width * 2 ^ (s - (shift + width)) =
        ap (λ n. 2 ^ n) {y = shift + width + (s - (shift + width))} (omega arith)
        ∙ (pow-add (shift + width) (s - (shift + width))
            ∙ ap (λ n. n * 2 ^ (s - (shift + width))) (pow-add shift width)) in
      let through : (x : ℕ) → x / 2 ^ s ≡ x / (2 ^ shift * 2 ^ width) / 2 ^ (s - (shift + width)) =
        λ x.
          ap (λ n. x / n) split
          ∙ sym (div-div-eq-div-mul x (2 ^ shift * 2 ^ width) (2 ^ (s - (shift + width)))) in
      ap (λ n. n % 2 ^ w)
        (through (insert shift width value byte)
          ∙ (ap (λ n. n / 2 ^ (s - (shift + width))) insert_above ∙ sym (through byte)))

  pub extract-insert_below :
      (s w : ℕ) → s + w ≤ shift → extract s w (insert shift width value byte) ≡ extract s w byte
  unfolding extract
  extract-insert_below s w h =
      let split : 2 ^ shift ≡ 2 ^ s * 2 ^ w * 2 ^ (shift - (s + w)) =
        ap (λ n. 2 ^ n) {y = s + w + (shift - (s + w))} (omega arith)
        ∙ (pow-add (s + w) (shift - (s + w)) ∙ ap (λ n. n * 2 ^ (shift - (s + w))) (pow-add s w)) in
      let through : (x : ℕ) → x / 2 ^ s % 2 ^ w ≡ x % 2 ^ shift / 2 ^ s % 2 ^ w = λ x. sym (
        ap (λ n. x % n / 2 ^ s % 2 ^ w) split
        ∙ digit-mod (2 ^ s) (2 ^ w) (2 ^ (shift - (s + w))) x (pow-pos s)) in
      through (insert shift width value byte)
      ∙ (ap (λ n. n / 2 ^ s % 2 ^ w) insert_below ∙ sym (through byte))

  pub insert-IsByte : shift + width ≤ 8 → IsByte byte → IsByte (insert shift width value byte)
  insert-IsByte h b =
      let c = 2 ^ (8 - (shift + width)) in
      let split : 256 ≡ c * (2 ^ shift * 2 ^ width) =
        ap (λ n. 2 ^ n) {x = 8} {y = shift + width + (8 - (shift + width))} (omega arith)
        ∙ (pow-add (shift + width) (8 - (shift + width))
            ∙ (ap (λ n. n * c) (pow-add shift width) ∙ mul_comm (2 ^ shift * 2 ^ width) c)) in
      let positive : 0 < 2 ^ shift * 2 ^ width =
        subst (λ n. 0 < n) (pow-add shift width) (pow-pos (shift + width)) in
      let small : byte / (2 ^ shift * 2 ^ width) < c =
        (div-lt_iff_lt-mul positive).1 (subst (λ n. byte < n) split b) in
      subst (λ n. insert shift width value byte < n) (sym split)
        ((div-lt_iff_lt-mul positive).0 (subst (λ n. n < c) (sym insert_above) small))
