-- ===== src/Bridge/Escape.antt =====
-- remote_serial_bridge/main.cpp: the key that ends the loop.
use haier_protocol.Prelude.{
  ℕ, ◌≡◌, refl, Bool, true, false, ◌||◌, List, [], ◌∷◌, length, arith, ltb, ◌==◌, Option, none,
  some, if-both, subst,
}
use haier_protocol.Serial.{Port, available, read_array}
use haier_protocol.Bridge.{
  Socket, Bridge, Outcome, go_on, pass_received, receive, after_write, forward, turn, and_then,
  bridge_loop,
}

abbrev pub is_escape : Option ℕ → Bool
is_escape none = false
is_escape (some kb) = kb == 27

-- Whether the escape key is among them.
abbrev pub escapes : List (Option ℕ) → Bool
escapes [] = false
escapes (kb ∷ keys) = is_escape kb || escapes keys

-- What is returned goes with whether the loop is to end.
pub record Ends (ends : Bool) (returned : Option ℕ) : Type 0 where
  pub going : returned ≡ none → ends ≡ false
  pub ended : returned ≡ some 0 → ends ≡ true

module _ (port : Port) (socket : Socket) where
  -- In a turn `main` is not left with 0, and `app_exiting` is as given.
  abbrev Steady : Bool → Outcome port socket → Type 0
  Steady exiting o = (o.bridge.app_exiting ≡ exiting) × (o.returned ≡ some 0 → ⊥)

  pass_received-Steady :
      (b : Bridge port socket) (got : Option (List ℕ))
      → Steady b.app_exiting (pass_received port socket b got)
  unfolding pass_received
  pass_received-Steady b none = (refl, λ e. cc)
  pass_received-Steady b (some bytes) =
      if-both (Steady b.app_exiting) (ltb 0 (length bytes)) (λ _. (refl, λ e. cc))
        (λ _. (refl, λ e. cc))

  receive-Steady : (b : Bridge port socket) → Steady b.app_exiting (receive port socket b)
  unfolding receive
  receive-Steady b = pass_received-Steady _ _

  after_write-Steady :
      (b : Bridge port socket) (res : Option ℕ)
      → Steady b.app_exiting (after_write port socket b res)
  unfolding after_write
  after_write-Steady b none = (refl, λ e. cc)
  after_write-Steady b (some written) = receive-Steady b

  forward-Steady : (b : Bridge port socket) → Steady b.app_exiting (forward port socket b)
  unfolding forward
  forward-Steady b =
      let (s1, size) = available port b.serial_stream in
      let bytes = (read_array port s1 size).1 in
      if-both (Steady b.app_exiting) (ltb 0 (length bytes)) (λ _. after_write-Steady _ _)
        (λ _. receive-Steady _)

  turn-Steady :
      (kb : Option ℕ) (b : Bridge port socket)
      → Steady (is_escape kb || b.app_exiting) (turn port socket kb b)
  unfolding turn
  turn-Steady none b = forward-Steady b
  turn-Steady (some kb) b =
      if-both (λ b'. Steady (kb == 27 || b.app_exiting) (go_on port socket b')) (kb == 27)
        {x = record b { app_exiting = true }} {y = b} (λ hit. (ground (arith, hit), λ e. cc))
        (λ other. (ground (arith, other), λ e. cc))

  and_then-Ends :
      (ends : Bool) (res : Option ℕ) (o later : Outcome port socket)
      → o.returned ≡ res
      → (o.returned ≡ some 0 → ⊥)
      → Ends ends later.returned
      → Ends ends (and_then port socket res o later).returned
  unfolding and_then
  and_then-Ends ends none o later e not_zero h = h
  and_then-Ends ends (some code) o later e not_zero h = record {
    going = λ q. cc;
    ended = λ q. absurd (not_zero q);
  }

  -- The loop is left with 0 only where the escape key was hit, and where that was, it does not go on.
  pub bridge_loop-Ends :
      (keys : List (Option ℕ)) (b : Bridge port socket)
      → Ends (b.app_exiting || escapes keys) (bridge_loop port socket keys b).returned
  unfolding bridge_loop
  bridge_loop-Ends [] b =
      if-both (λ (o : Outcome port socket). Ends (b.app_exiting || false) o.returned) b.app_exiting
        (λ e. record { going = λ q. cc; ended = λ _. ground (arith, e) })
        (λ e. record { going = λ _. ground (arith, e); ended = λ q. cc })
  bridge_loop-Ends (kb ∷ keys) b =
      let o = turn port socket kb b in
      let (exiting, not_zero) = turn-Steady kb b in
      let later = bridge_loop-Ends keys o.bridge in
      let ends : (o.bridge.app_exiting || escapes keys) ≡ (b.app_exiting || escapes (kb ∷ keys)) =
        ground (arith, exiting) in
      if-both (λ (r : Outcome port socket). Ends (b.app_exiting || escapes (kb ∷ keys)) r.returned)
        b.app_exiting (λ e. record { going = λ q. cc; ended = λ _. ground (arith, e) })
        (λ _.
          subst
            (λ ends.
              Ends ends
                (and_then port socket o.returned o
                  (bridge_loop port socket keys o.bridge)).returned)
            ends
            (and_then-Ends _ o.returned o (bridge_loop port socket keys o.bridge) refl not_zero
              later))
