-- ===== src/Console/Line.antt =====
-- console_log.cpp: what a message leaves in `msg_buffer`, and where it runs over it.
use haier_protocol.Prelude.{
  ℕ, suc, ◌+◌, ◌-◌, ◌^◌, ◌≤◌, ◌<◌, ◌≡◌, refl, sym, ap, subst, ◌∙◌, List, [], ◌∷◌, ◌++◌, map,
  append_assoc, arith, length, length-append, length-take, length-drop, take, drop, take_all,
  take-append_self, store_at_start, store_at_behind, All-append, size_sub, ◌==◌, if_false, ==-false,
}
use haier_protocol.Log.{buffer_size, shift, snprintf, writes_at}
use haier_protocol.Log.State.{
  HaierLogLevel, level_none, level_error, level_warning, level_info, level_debug, level_verbose,
}
use haier_protocol.Log.Placed.{
  InBounds, written, written-append, written-writes_at, writes_at-InBounds,
}
use haier_protocol.Log.Overrun.{All-right}
use haier_protocol.Console.{
  Console, LocalTime, Printed, prefix, line_writes, print_line, console_logger, count,
}

length-prefix :
    (now : LocalTime) (level : HaierLogLevel) (tag : List ℕ)
    → length (prefix now level tag) ≡ 17 + length tag
unfolding prefix
length-prefix now level tag = omega (arith, length-append tag (b']' ∷ b':' ∷ b' ' ∷ []))

shift-writes_at : (k i : ℕ) (text : List ℕ) → shift k (writes_at i text) ≡ writes_at (k + i) text
shift-writes_at k i [] = refl
shift-writes_at k i (c ∷ rest) =
    ap (λ w. (k + i, c) ∷ w)
      (shift-writes_at k (suc i) rest ∙ ap (λ j. writes_at j rest) {y = suc (k + i)} (omega arith))

-- What `snprintf` writes where there is room.
snprintf-writes :
    (text : List ℕ) (n : ℕ)
    → 0 < n
    → (snprintf text n).0 ≡ writes_at 0 (take (n - 1) text ++ 0 ∷ [])
snprintf-writes text n h = if_false {b = n == 0} _ _ (==-false _ _ (omega arith))

module _ (now : LocalTime) (level : HaierLogLevel) (tag text : List ℕ) where
  -- What is shown: the prefix, and what fits of the text.
  abbrev pub shown : List ℕ
  shown = prefix now level tag ++ take (buffer_size - 2 - length (prefix now level tag)) text

  abbrev cut : List ℕ
  cut = take (buffer_size - 2 - length (prefix now level tag)) text ++ 0 ∷ []

  -- The writes of both calls, one behind the other.
  line_writes_lem :
      length tag ≤ 4077
      → line_writes now level tag text
        ≡ writes_at 0 (prefix now level tag ++ 0 ∷ [])
          ++ writes_at (length (prefix now level tag)) cut
  unfolding line_writes
  line_writes_lem room =
      let head = prefix now level tag in
      let len = length head in
      let size = size_sub (size_sub buffer_size len) 1 in
      let l = length-prefix now level tag in
      let left : size ≡ buffer_size - 1 - len = omega (arith, l, room) in
      ap (λ w. w ++ shift len (snprintf text size).0)
        (snprintf-writes head buffer_size (omega arith)
          ∙ ap (λ h. writes_at 0 (h ++ 0 ∷ []))
              (take_all (buffer_size - 1) head (omega (arith, l))))
      ∙ ap (λ w. writes_at 0 (head ++ 0 ∷ []) ++ w)
          (ap (shift len) (snprintf-writes text size (omega (arith, left, l, room)))
            ∙ shift-writes_at len 0 (take (size - 1) text ++ 0 ∷ [])
            ∙ ap (λ j. writes_at j (take (size - 1) text ++ 0 ∷ [])) {y = len} (omega arith)
            ∙ ap (λ n. writes_at len (take n text ++ 0 ∷ [])) {y = buffer_size - 2 - len}
                (omega (arith, left, l, room)))

  length-cut : length tag ≤ 4077 → length (prefix now level tag) + length cut ≤ buffer_size
  length-cut room =
      let len = length (prefix now level tag) in
      omega (
        arith,
        length-append (take (buffer_size - 2 - len) text) (0 ∷ []),
        length-take (buffer_size - 2 - len) text,
        length-prefix now level tag,
      )

  line_writes-InBounds : length tag ≤ 4077 → InBounds buffer_size (line_writes now level tag text)
  line_writes-InBounds room =
      let head = prefix now level tag in
      subst (InBounds buffer_size) (sym (line_writes_lem room)) (
        All-append _ (writes_at 0 (head ++ 0 ∷ [])) _
          (writes_at-InBounds 0 buffer_size (head ++ 0 ∷ [])
            (omega (arith, length-append head (0 ∷ []), length-prefix now level tag)))
          (writes_at-InBounds (length head) buffer_size cut (length-cut room)))

  line_text :
      (buffer : List ℕ)
      → length buffer ≡ buffer_size
      → length tag ≤ 4077
      → take (suc (length shown)) (written (line_writes now level tag text) buffer)
        ≡ shown ++ 0 ∷ []
  line_text buffer wide room =
      let head = prefix now level tag in
      let fits = take (buffer_size - 2 - length head) text in
      let left = drop (length (head ++ 0 ∷ [])) buffer in
      let l = length-prefix now level tag in
      let ends = length-append head (0 ∷ []) in
      let behind = drop (length cut) (0 ∷ left) in
      let stored : written (line_writes now level tag text) buffer ≡ (shown ++ 0 ∷ []) ++ behind =
        ap (λ w. written w buffer) (line_writes_lem room)
        ∙ written-append (writes_at 0 (head ++ 0 ∷ [])) (writes_at (length head) cut) buffer
        ∙ ap (written (writes_at (length head) cut)) (
            written-writes_at 0 (head ++ 0 ∷ []) buffer
            ∙ store_at_start buffer (head ++ 0 ∷ []) (omega (arith, ends, l, wide))
            ∙ append_assoc head (0 ∷ []) left)
        ∙ written-writes_at (length head) cut (head ++ 0 ∷ left)
        ∙ store_at_behind head (0 ∷ left) cut (
            omega
              (arith, length-cut room, length-drop (length (head ++ 0 ∷ [])) buffer, ends, wide))
        ∙ sym (append_assoc head cut behind)
        ∙ ap (λ s. s ++ behind) (sym (append_assoc head fits (0 ∷ []))) in
      ap (take (suc (length shown))) stored
      ∙ ap (λ n. take n ((shown ++ 0 ∷ []) ++ behind)) {x = suc (length shown)}
          (omega (arith, length-append shown (0 ∷ [])))
      ∙ take-append_self (shown ++ 0 ∷ []) behind

-- What a message of a level that is logged does.
pub record Shows (now : LocalTime) (level : HaierLogLevel) (tag text : List ℕ)
    (r : Console × List Printed) : Type 0 where
  pub in_bounds : InBounds buffer_size (line_writes now level tag text)
  pub line :
      take (suc (length (shown now level tag text))) r.0.msg_buffer
      ≡ shown now level tag text ++ 0 ∷ []
  pub printed : map (λ (p : Printed). p.line) r.1 ≡ r.0.msg_buffer ∷ []

abbrev pub Logs :
    LocalTime → HaierLogLevel → List ℕ → List ℕ → Console → Console × List Printed → Type 0
Logs now level_none tag text c r = r ≡ (c, [])
Logs now level tag text c r = Shows now level tag text r

print_line-Shows :
    (now : LocalTime) (level : HaierLogLevel) (tag text : List ℕ) (c : Console)
    → length c.msg_buffer ≡ buffer_size
    → length tag ≤ 4077
    → Shows now level tag text (print_line now level tag text c)
unfolding print_line
print_line-Shows now level tag text c wide room = record {
  in_bounds = line_writes-InBounds now level tag text room;
  line = line_text now level tag text c.msg_buffer wide room;
  printed = refl;
}

-- Without a level nothing happens. With one, and a tag of at most 4077 characters, both
-- calls write only within `msg_buffer`, the buffer starts with the time, the level's letter and the tag
-- as the format has them, as much of the text as fits, and the character 0, and it is printed once.
pub console_logger-Logs :
    (now : LocalTime) (level : HaierLogLevel) (tag text : List ℕ) (c : Console)
    → length c.msg_buffer ≡ buffer_size
    → length tag ≤ 4077
    → Logs now level tag text c (console_logger now level tag text c)
unfolding console_logger
console_logger-Logs now level_none tag text c wide room = refl
console_logger-Logs now level_error tag text c wide room =
    print_line-Shows now level_error tag text (count level_error c) wide room
console_logger-Logs now level_warning tag text c wide room =
    print_line-Shows now level_warning tag text (count level_warning c) wide room
console_logger-Logs now level_info tag text c wide room =
    print_line-Shows now level_info tag text c wide room
console_logger-Logs now level_debug tag text c wide room =
    print_line-Shows now level_debug tag text c wide room
console_logger-Logs now level_verbose tag text c wide room =
    print_line-Shows now level_verbose tag text c wide room

text_outside :
    (size i : ℕ) (text : List ℕ) (c : ℕ) → size ≤ i → ¬ InBounds size (writes_at i (text ++ c ∷ []))
text_outside size i [] c h k = omega (arith, k.0)
text_outside size i (x ∷ text) c h k = omega (arith, k.0)

-- A tag of 4079 characters or more, of a size that an `int` can say: the call of `vsnprintf` writes
-- beyond the end of `msg_buffer`, whatever the text is.
pub line_writes-overruns :
    (now : LocalTime) (level : HaierLogLevel) (tag text : List ℕ)
    → 4079 ≤ length tag
    → length tag + 17 < 2 ^ 31
    → ¬ InBounds buffer_size (line_writes now level tag text)
unfolding line_writes
line_writes-overruns now level tag text long small h =
    let len = length (prefix now level tag) in
    let size = size_sub (size_sub buffer_size len) 1 in
    let l = length-prefix now level tag in
    let positive : 0 < size = omega (arith, l, long, small) in
    let second =
      All-right _ (snprintf (prefix now level tag) buffer_size).0 (shift len (snprintf text size).0)
        h in
    text_outside buffer_size (len + 0) (take (size - 1) text) 0 (omega (arith, l, long)) (
      subst (InBounds buffer_size)
        (ap (shift len) (snprintf-writes text size positive)
          ∙ shift-writes_at len 0 (take (size - 1) text ++ 0 ∷ []))
        second)
