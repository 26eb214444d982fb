-- ===== src/Log/Bounds.antt =====
-- src/utils/haier_log.cpp, `log_haier_buffers`: whether it stays within `msg_buffer`.
use haier_protocol.Prelude.{
  length-take, ltb-false, ◌⊎◌, ℕ, suc, ◌+◌, ◌-◌, ◌*◌, ◌≤◌, ◌<◌, ◌≡◌, sym, ap, ◌&&◌, List, [], ◌∷◌,
  ◌++◌, length, take, All, All-append, IsByte, Option, none, some, arith, ltb, leb, ◌==◌, if_false,
  if-both, or_else, inl, inr, length-append, size_mod, size_sub, subst,
}
use haier_protocol.Log.{
  codes, Writes, buffer_size, shift, copy_header, write_header, snprintf, print_buf, print_second,
  log_haier_buffers,
}
use haier_protocol.Log.Placed.{InBounds, writes_at-InBounds}
use haier_protocol.Log.Print.{print_buf-Printed, shown, length-joined}
use haier_protocol.Log.Text.{joined}

shift-InBounds : (k size : ℕ) (w : Writes) → InBounds size w → InBounds (k + size) (shift k w)
shift-InBounds k size [] h = tt
shift-InBounds k size ((i, c) ∷ rest) h = (omega (arith, h.0), shift-InBounds k size rest h.1)

InBounds-mono : (a b : ℕ) (w : Writes) → a ≤ b → InBounds a w → InBounds b w
InBounds-mono a b [] h k = tt
InBounds-mono a b ((i, c) ∷ rest) h k = (omega (arith, k.0), InBounds-mono a b rest h k.1)

-- Writes below an offset, and an end that is not above it.
abbrev Within : ℕ → Writes × ℕ → Type 0
Within size r = InBounds size r.0 × (r.1 ≤ size)

-- The header leaves room for a space, and for five characters more.
copy_header-Within : (header : List ℕ) (res : ℕ) → res ≤ 4090 → Within 4090 (copy_header header res)
copy_header-Within [] res h = (tt, h)
copy_header-Within (c ∷ rest) res h =
    if-both (Within 4090) (leb res (buffer_size - 7))
      (λ e.
        let next = copy_header-Within rest (suc res) (ground (arith, e)) in
        ((ground (arith, e), next.0), next.1))
      (λ e. (tt, h))

write_header-Within : (header : Option (List ℕ)) → Within 4091 (write_header header)
write_header-Within none = (tt, omega arith)
write_header-Within (some header) =
    let loop = copy_header-Within header 0 (omega arith) in
    (
      All-append _ (copy_header header 0).0 _ (InBounds-mono 4090 4091 _ (omega arith) loop.0)
          (omega (arith, loop.1), tt),
      omega (arith, loop.1),
    )

snprintf-InBounds : (text : List ℕ) (n : ℕ) → InBounds n (snprintf text n).0
snprintf-InBounds text n =
    if-both (InBounds n) (n == 0) (λ e. tt)
      (λ e.
        writes_at-InBounds 0 n (take (n - 1) text ++ 0 ∷ [])
          (grind (arith, e, length-append (take (n - 1) text) (0 ∷ []), length-take (n - 1) text)))

-- `print_buf` into the end of `msg_buffer` from `res` on.
print_at :
    (buffer : List ℕ) (res : ℕ)
    → All IsByte buffer
    → length buffer * 3 < size_mod
    → res ≤ 4091
    → InBounds buffer_size (shift res (print_buf buffer (size_sub buffer_size res)).0)
unfolding print_buf
print_at [] res h k room = tt
print_at (b ∷ rest) res h k room =
    let size = size_sub buffer_size res in
    let printed = print_buf-Printed b rest size h k (omega (arith, room)) in
    subst (λ n. InBounds n (shift res (print_buf (b ∷ rest) size).0)) {x = res + size}
      {y = buffer_size} (omega (arith, room))
      (shift-InBounds res size (print_buf (b ∷ rest) size).0 printed.in_bounds)

print_second-InBounds :
    (buffer2 : List ℕ) (res : ℕ)
    → All IsByte buffer2
    → length buffer2 * 3 < size_mod
    → (length buffer2 ≡ 0) ⊎ (res ≤ 4090)
    → InBounds buffer_size (print_second buffer2 res).0
print_second-InBounds buffer2 res h k (inl e) =
    subst (λ (r : Writes × ℕ). InBounds buffer_size r.0)
      (sym (
        if_false {b = ltb 0 (size_sub buffer_size res) && ltb 0 (length buffer2)} _ _
          (ground (arith, e))))
      tt
print_second-InBounds buffer2 res h k (inr room) =
    or_else (λ (r : Writes × ℕ). InBounds buffer_size r.0)
      (ltb 0 (size_sub buffer_size res) && ltb 0 (length buffer2))
      (omega (arith, room), print_at buffer2 (res + 1) h k (omega (arith, room))) tt

-- Where `print_buf` ends if everything fits.
pub print_end :
    (buffer : List ℕ) (res : ℕ)
    → All IsByte buffer
    → 0 < length buffer
    → res ≤ 4091
    → res + 3 * length buffer ≤ buffer_size
    → (print_buf buffer (size_sub buffer_size res)).1 + 1 ≡ 3 * length buffer
print_end [] res h nonempty room k = absurd (omega arith)
print_end (b ∷ rest) res h nonempty room k =
    let size = size_sub buffer_size res in
    let printed = print_buf-Printed b rest size h (omega (arith, k)) (omega (arith, room)) in
    let all : shown (b ∷ rest) size ≡ joined (b ∷ rest) =
      if_false {b = ltb size (length (b ∷ rest) * 3)} _ _ (ltb-false _ _ (omega (arith, k))) in
    omega (arith, printed.position, ap (λ l. length l) all, length-joined b rest size h)

-- For any header and buffers of bytes, of sizes that a `size_t` can say: where the second buffer is
-- empty, or the header with its space, three characters for each byte of the first buffer and five more
-- fit into `msg_buffer`, `log_haier_buffers` writes only within `msg_buffer`.
pub log_haier_buffers-InBounds :
    (header : Option (List ℕ)) (buffer1 buffer2 : List ℕ)
    → All IsByte buffer1
    → All IsByte buffer2
    → length buffer1 * 3 < size_mod
    → length buffer2 * 3 < size_mod
    → (length buffer2 ≡ 0) ⊎ ((write_header header).1 + 3 * length buffer1 + 5 ≤ buffer_size)
    → InBounds buffer_size (log_haier_buffers header buffer1 buffer2).0
unfolding log_haier_buffers
log_haier_buffers-InBounds header buffer1 buffer2 h1 h2 k1 k2 room =
    let head = (write_header header).0 in
    let res = (write_header header).1 in
    let start = write_header-Within header in
    let head_in = InBounds-mono 4091 buffer_size head (omega arith) start.0 in
    or_else (λ (r : Writes × ℕ). InBounds buffer_size r.0) (length buffer1 + length buffer2 == 0)
      (All-append _ head _ head_in (
        InBounds-mono (res + size_sub buffer_size (res + 1)) buffer_size _ (omega (arith, start.1))
          (shift-InBounds res _ _
            (snprintf-InBounds (codes "<empty>") (size_sub buffer_size (res + 1))))))
      (if-both (λ (r : Writes × ℕ). InBounds buffer_size r.0) (ltb 0 (length buffer1))
        (λ e. All-append _ head _ head_in (
          All-append _ (shift res (print_buf buffer1 (size_sub buffer_size res)).0) _
            (print_at buffer1 res h1 k1 start.1)
            (print_second-InBounds buffer2 _ h2 k2 (second_room (ground (arith, e)) room))))
        (λ e. head_in))
  where
    second_room :
        0 < length buffer1
        → (length buffer2 ≡ 0) ⊎ ((write_header header).1 + 3 * length buffer1 + 5 ≤ buffer_size)
        → (length buffer2 ≡ 0)
          ⊎ ((write_header header).1
                + (print_buf buffer1 (size_sub buffer_size (write_header header).1)).1
              ≤ 4090)
    second_room nonempty (inl e) = inl e
    second_room nonempty (inr k) = inr (
        omega (
          arith,
          k,
          print_end buffer1 (write_header header).1 h1 nonempty (omega (arith, k))
              (omega (arith, k)),
        ))
