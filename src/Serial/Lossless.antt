-- ===== src/Serial/Lossless.antt =====
-- serial_stream.cpp: what goes in and comes out, over any calls.
use haier_protocol.Prelude.{
  length-take, ℕ, ◌≤◌, ◌≡◌, refl, sym, ap, ap₂, subst, ◌∙◌, min, Bool, true, false, not, ◌||◌, List,
  [], ◌∷◌, ◌++◌, append-nil, arith, length, take, take_all, take-append-drop, empty-length, ltb,
  if◌then◌else◌, Option, none, some, Bool-cases, inl, inr, if_true, if_false, if-both,
}
use haier_protocol.Circular.{IsValid, get_size, push_all}
use haier_protocol.Circular.Validity.{is_empty_iff_size}
use haier_protocol.Circular.Contents.{contents, length-contents}
use haier_protocol.Circular.Append.{push_all_lem}
use haier_protocol.Circular.Remove.{pop_lem}
use haier_protocol.Serial.{
  Port, SerialStream, serial_buffer_size, take_in, available, read_array, write_array,
}

-- The calls of a client.
pub data SerialCall : Type 0 where
  call_available : SerialCall
  call_read : ℕ → SerialCall
  call_write : List ℕ → SerialCall

-- What a call of `read` brought.
abbrev pub brought : Option (List ℕ) → List ℕ
brought none = []
brought (some bytes) = bytes

module _ (port : Port) where
  open port use {Device}

  pub record IsReady (s : SerialStream port) : Type 0 where
    pub valid : IsValid s.buffer
    pub wide : s.buffer.capacity ≡ serial_buffer_size

  take_in-device :
      (s : SerialStream port) (device : Device) (got : Option (List ℕ))
      → (take_in port s device got).0.device ≡ device
  take_in-device s device none = refl
  take_in-device s device (some bytes) =
      if-both {A = SerialStream port × ℕ} (λ r. r.0.device ≡ device) (ltb 0 (length bytes))
        (λ _. refl) (λ _. refl)

  -- With an open port and an empty buffer, `available` makes one call of `read` and no other.
  pub available-device :
      (s : SerialStream port)
      → s.is_open ≡ true
      → s.buffer.is_empty ≡ true
      → (available port s).0.device ≡ (port.read s.device serial_buffer_size).0
  unfolding available
  available-device s opened empty =
      let got = port.read s.device serial_buffer_size in
      ap (λ (r : SerialStream port × ℕ). r.0.device)
        (if_false _ _ (ap not opened) ∙ if_true (take_in port s got.0 got.1) _ empty)
      ∙ take_in-device s got.0 got.1

  pub read_array-device :
      (s : SerialStream port) (len : ℕ) → (read_array port s len).0.device ≡ s.device
  unfolding read_array
  read_array-device s len =
      if-both {A = SerialStream port × List ℕ} (λ r. r.0.device ≡ s.device)
        (not s.is_open || s.buffer.is_empty) (λ _. refl) (λ _. refl)

  pub write_array-device :
      (s : SerialStream port) (bytes : List ℕ)
      → s.is_open ≡ true
      → (write_array port s bytes).device ≡ port.write s.device bytes
  unfolding write_array
  write_array-device s bytes opened =
      ap (λ (r : SerialStream port). r.device) (if_false _ _ (ap not opened))

  -- The bytes that `available` takes from the port.
  unfoldable pub fetched : SerialStream port → List ℕ
  fetched s =
      if s.is_open
      then (if s.buffer.is_empty then brought (port.read s.device serial_buffer_size).1 else [])
      else []

  pub fetched-eq :
      (s : SerialStream port)
      → s.is_open ≡ true
      → s.buffer.is_empty ≡ true
      → fetched s ≡ brought (port.read s.device serial_buffer_size).1
  unfolding fetched
  fetched-eq s opened empty = if_true _ _ opened ∙ if_true _ _ empty

  abbrev Fetches : SerialStream port → List ℕ → SerialStream port × ℕ → Type 0
  Fetches s bytes (s', n) =
      IsReady s'
      × (contents s'.buffer ≡ contents s.buffer ++ bytes)
      × (n ≡ length (contents s'.buffer))
      × (s'.is_open ≡ s.is_open)

  take_in-Fetches :
      (s : SerialStream port) (device : Device) (got : Option (List ℕ))
      → IsReady s
      → contents s.buffer ≡ []
      → length (brought got) ≤ serial_buffer_size
      → Fetches s (brought got) (take_in port s device got)
  take_in-Fetches s device none r e le = (
    record { valid = r.valid; wide = r.wide },
    sym (append-nil (contents s.buffer)),
    ap length (sym e),
    refl,
  )
  take_in-Fetches s device (some bytes) r e le =
      let (count, added) = push_all_lem bytes r.valid in
      let zero_held : get_size s.buffer ≡ 0 = sym (length-contents s.buffer) ∙ ap length e in
      let all : (push_all s.buffer bytes).1 ≡ length bytes =
        omega (arith, count, zero_held, r.wide, le) in
      if-both {A = SerialStream port × ℕ} (Fetches s bytes) (ltb 0 (length bytes))
        (λ _. (
          record { valid = added.valid; wide = added.same_capacity ∙ r.wide },
          added.bytes
              ∙ ap (λ l. contents s.buffer ++ l)
                  (ap (λ n. take n bytes) all ∙ take_all (length bytes) bytes (omega arith)),
          sym (length-contents (push_all s.buffer bytes).0),
          refl,
        ))
        (λ zero_size.
          let no_bytes = empty-length bytes (ground (arith, zero_size)) in
          (
            record { valid = r.valid; wide = r.wide },
            sym (append-nil (contents s.buffer)) ∙ ap (λ l. contents s.buffer ++ l) (sym no_bytes),
            ap length (sym e),
            refl,
          ))

  fits :
      (device : Device) (got : Option (List ℕ))
      → (port.read device serial_buffer_size).1 ≡ got
      → length (brought got) ≤ serial_buffer_size
  fits device none e = omega arith
  fits device (some bytes) e = port.read_le device serial_buffer_size bytes e

  -- On an open port `available` loses nothing: what it takes from the port stands behind what was held,
  -- and it returns how much is held. On a closed one it returns 0.
  pub available-Fetches :
      (s : SerialStream port)
      → IsReady s
      → (s.is_open ≡ true → Fetches s (fetched s) (available port s))
        × (s.is_open ≡ false → available port s ≡ (s, 0))
  unfolding available fetched
  available-Fetches s r = (
    λ opened.
        let Goal : Bool → Bool → Type 0 = λ o b.
          Fetches s
            (if o
              then (if b then brought (port.read s.device serial_buffer_size).1 else [])
              else [])
            (if not o
              then (s, 0)
              else (if b
                  then take_in port s (port.read s.device serial_buffer_size).0
                      (port.read s.device serial_buffer_size).1
                  else (s, get_size s.buffer))) in
        subst (λ o. Goal o s.buffer.is_empty) (sym opened)
          (elim (Bool-cases s.buffer.is_empty) [
            | inl empty ↦
                let nothing =
                  empty-length (contents s.buffer)
                    (length-contents s.buffer ∙ (is_empty_iff_size r.valid).0 empty) in
                subst (Goal true) (sym empty) (
                  take_in-Fetches s (port.read s.device serial_buffer_size).0
                    (port.read s.device serial_buffer_size).1 r nothing
                    (fits s.device (port.read s.device serial_buffer_size).1 refl))
            | inr held ↦
                subst (Goal true) (sym held)
                  (r, sym (append-nil (contents s.buffer)), sym (length-contents s.buffer), refl)
          ]),
    λ closed. if_true _ _ (ap not closed),
  )

  -- `read_array` hands over the oldest bytes, as many as are asked for or all that are held, and keeps
  -- the others.
  pub read_array-Takes :
      (s : SerialStream port) (len : ℕ)
      → IsReady s
      → s.is_open ≡ true
      → let (s', bytes) = read_array port s len in
        IsReady s'
        × (bytes ++ contents s'.buffer ≡ contents s.buffer)
        × (length bytes ≡ min len (length (contents s.buffer)))
        × (s'.is_open ≡ s.is_open)
  unfolding read_array
  read_array-Takes s len r opened =
      let l = contents s.buffer in
      let size = length-contents s.buffer in
      let n = if ltb (get_size s.buffer) len then get_size s.buffer else len in
      let least : min n (get_size s.buffer) ≡ min len (length l) = ground (arith, size) in
      let (items, drops) = pop_lem n r.valid in
      let k = min n (get_size s.buffer) in
      if-both {A = SerialStream port × List ℕ}
        (λ q.
          IsReady q.0
          × (q.1 ++ contents q.0.buffer ≡ l)
          × (length q.1 ≡ min len (length l))
          × (q.0.is_open ≡ s.is_open))
        (not s.is_open || s.buffer.is_empty)
        (λ stops.
          let empty : s.buffer.is_empty ≡ true = ground (arith, stops, opened) in
          let none_held = (is_empty_iff_size r.valid).0 empty in
          (r, refl, omega (arith, size, none_held), refl))
        (λ _. (
          record { valid = drops.valid; wide = drops.same_capacity ∙ r.wide },
          ap₂ (λ a b. a ++ b) items drops.bytes ∙ take-append-drop k l,
          ap length items ∙ length-take k l ∙ omega (arith, least, size),
          refl,
        ))

  -- A call: the stream afterwards, what came in from the port, and what the client was given.
  abbrev pub serve : SerialCall → SerialStream port → SerialStream port × List ℕ × List ℕ
  serve call_available s = ((available port s).0, fetched s, [])
  serve (call_read len) s = ((read_array port s len).0, [], (read_array port s len).1)
  serve (call_write bytes) s = (write_array port s bytes, [], [])

  unfoldable pub serve_all :
      List SerialCall → SerialStream port → SerialStream port × List ℕ × List ℕ
  serve_all [] s = (s, [], [])
  serve_all (c ∷ cs) s =
      let (s1, came, given) = serve c s in
      let (s2, came2, given2) = serve_all cs s1 in (s2, came ++ came2, given ++ given2)

  abbrev Balanced : SerialStream port → SerialStream port × List ℕ × List ℕ → Type 0
  Balanced s (s', came, given) =
      IsReady s'
      × (given ++ contents s'.buffer ≡ contents s.buffer ++ came)
      × (s'.is_open ≡ s.is_open)

  pub write_array-buffer :
      (s : SerialStream port) (bytes : List ℕ)
      → IsReady s
      → Balanced s (write_array port s bytes, [], [])
  unfolding write_array
  write_array-buffer s bytes r =
      if-both (λ s'. Balanced s (s', [], [])) (not s.is_open)
        (λ _. (r, sym (append-nil (contents s.buffer)), refl))
        (λ _.
          (record { valid = r.valid; wide = r.wide }, sym (append-nil (contents s.buffer)), refl))
