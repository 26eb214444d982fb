-- ===== src/Message/Payload.antt =====
-- The bytes of a message of haier_message.cpp: the subcommand, if there is one, and the data.
use haier_protocol.Prelude.{
  ℕ, suc, ◌/◌, ◌%◌, ◌<◌, ◌≤◌, ◌≡◌, refl, true, List, [], ◌∷◌, ◌++◌, arith, length, length-append,
  take, take_all, drop, ltb, ◌==◌, Bool-cases, inl, inr, if◌then◌else◌, u8, store_at,
  store_at_start, ltb-false, lt→ltb, set,
}
use haier_protocol.Message.{HaierMessage, no_subcommand, make, copy, get_buffer_size, fill_buffer}

abbrev pub subcommand_bytes : ℕ → List ℕ
subcommand_bytes s = if s == no_subcommand then [] else u8 (s / 256) ∷ u8 (s % 256) ∷ []

abbrev pub payload : HaierMessage → List ℕ
payload m = subcommand_bytes m.subcommand ++ m.bytes

abbrev pub IsWellFormed : HaierMessage → Type 0
IsWellFormed m = m.data_size ≡ length m.bytes

-- A message that is made from data has a size that fits it, is the same when copied, and has for its
-- bytes those of the subcommand and the data.
pub make-payload :
    (type sub : ℕ) (bytes : List ℕ)
    → let m = make type sub true bytes (length bytes) in
      IsWellFormed m × (copy m ≡ m) × (payload m ≡ subcommand_bytes sub ++ bytes)
unfolding make copy
make-payload type sub [] = (refl, refl, refl)
make-payload type sub (b ∷ bs) = ground (arith, take_all (suc (length bs)) (b ∷ bs) (omega arith))

pub get_buffer_size-payload :
    (m : HaierMessage) → IsWellFormed m → get_buffer_size m ≡ length (payload m)
unfolding get_buffer_size
get_buffer_size-payload m e = ground (arith, length-append (subcommand_bytes m.subcommand) m.bytes)

-- Nothing is stored where there is nothing to store.
stored :
    (bytes buffer : List ℕ) (pos n : ℕ)
    → n ≡ length bytes
    → (if ltb 0 n then store_at buffer pos (take n bytes) else buffer) ≡ store_at buffer pos bytes
unfolding store_at
stored [] buffer pos n e = rw (ltb-false 0 n (omega arith))
stored (b ∷ bs) buffer pos n e = rw (lt→ltb 0 n (omega arith), take_all n (b ∷ bs) (omega arith))

-- For a message whose size fits its data, and a buffer that has room for it, `fill_buffer` writes the subcommand, if there is one, high byte first, and the
-- data behind it, leaves the rest of the buffer alone and returns their number. Where the limit is
-- less than that, it writes nothing and returns 0.
pub fill_buffer-payload :
    (m : HaierMessage) (buffer : List ℕ) (limit : ℕ)
    → IsWellFormed m
    → length (payload m) ≤ length buffer
    → (length (payload m) ≤ limit
        → fill_buffer m buffer limit
          ≡ (payload m ++ drop (length (payload m)) buffer, length (payload m)))
      × (limit < length (payload m) → fill_buffer m buffer limit ≡ (buffer, 0))
unfolding fill_buffer store_at
fill_buffer-payload m buffer limit e room = (
  λ fits. elim (Bool-cases (m.subcommand == no_subcommand)) [
    | inl none_there ↦ ground (
      arith,
      stored m.bytes buffer 0 m.data_size e,
      store_at_start buffer (payload m) room,
      get_buffer_size-payload m e,
    )
    | inr there ↦ ground (
      arith,
      stored m.bytes (set (set buffer 0 (u8 (m.subcommand / 256))) 1 (u8 (m.subcommand % 256))) 2
          m.data_size e,
      store_at_start buffer (payload m) room,
      get_buffer_size-payload m e,
    )
  ],
  λ short. ground (arith, get_buffer_size-payload m e),
)
