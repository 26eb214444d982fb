-- ===== src/Hon/Members.antt =====
-- tools/utils/hon_server.cpp: which member of the status a single parameter sets.
use haier_protocol.Prelude.{
  get_or_beyond, sym, ap, ◌∙◌, ◌≤◌, ℕ, zero, suc, ◌≡◌, refl, Bool, subst, arith, Bool-cases, inl,
  inr, ltb, ◌==◌, get_or, ◌<◌, [], ◌∷◌, true, false, List, Option, none, some, if◌then◌else◌,
}
use haier_protocol.Hon.Packet.{
  Control, control, ac_power, set_point, ac_mode, fan_mode, use_fahrenheit, ten_degree, health_mode,
  beeper_status, lock_remote, quiet_mode, fast_mode,
}
use haier_protocol.Protocol.State.{HandlerError, unsupported_subcommand}
use haier_protocol.Hon.Parameters.{single_parameter, store_flag, store_in}

-- The member at each parameter from 0 to 26, and whether it takes 0 and 1 alone.
abbrev pub members : List (Option (Control × Bool))
members =
    none
    ∷ some (ac_power, true)
    ∷ some (set_point, false)
    ∷ none
    ∷ some (ac_mode, false)
    ∷ some (fan_mode, false)
    ∷ none
    ∷ some (use_fahrenheit, true)
    ∷ none
    ∷ none
    ∷ some (ten_degree, true)
    ∷ some (health_mode, true)
    ∷ none
    ∷ none
    ∷ none
    ∷ none
    ∷ none
    ∷ none
    ∷ none
    ∷ none
    ∷ none
    ∷ none
    ∷ some (beeper_status, true)
    ∷ some (lock_remote, true)
    ∷ none
    ∷ some (quiet_mode, true)
    ∷ some (fast_mode, true)
    ∷ []

abbrev pub member : ℕ → Option (Control × Bool)
member parameter = get_or members parameter none

abbrev pub store_member : Option (Control × Bool) → ℕ → List ℕ → List ℕ × HandlerError
store_member none value status = (status, unsupported_subcommand)
store_member (some (c, is_flag)) value status =
    if is_flag then store_flag (control c) value status else store_in (control c) value status

abbrev Agrees : ℕ → Type 0
Agrees parameter =
    (value : ℕ) (status : List ℕ)
    → single_parameter parameter value status ≡ store_member (member parameter) value status

Agrees-above : (parameter : ℕ) → 27 ≤ parameter → Agrees parameter
unfolding single_parameter
Agrees-above parameter h value status =
    let unknown : single_parameter parameter value status ≡ (status, unsupported_subcommand) =
      ground (arith, h) in
    unknown ∙ ap (λ m. store_member m value status) (sym (get_or_beyond members parameter none h))

-- What holds at the first `n` numbers, one by one.
abbrev Each : (ℕ → Type 0) → ℕ → Type 0
Each P zero = Unit
Each P (suc n) = P n × Each P n

each_at : (P : ℕ → Type 0) (n i : ℕ) → Each P n → i < n → P i
each_at P zero i e h = absurd (omega arith)
each_at P (suc n) i e h = elim (Bool-cases (i == n)) [
  | inl q ↦ subst P (ground (arith, q)) e.0
  | inr q ↦ each_at P n i e.1 (ground (arith, q, h))
]

Agrees-below : Each Agrees 27
unfolding single_parameter
Agrees-below = (
  λ v s. refl,
  (
    λ v s. refl,
    (
      λ v s. refl,
      (
        λ v s. refl,
        (
          λ v s. refl,
          (
            λ v s. refl,
            (
              λ v s. refl,
              (
                λ v s. refl,
                (
                  λ v s. refl,
                  (
                    λ v s. refl,
                    (
                      λ v s. refl,
                      (
                        λ v s. refl,
                        (
                          λ v s. refl,
                          (
                            λ v s. refl,
                            (
                              λ v s. refl,
                              (
                                λ v s. refl,
                                (
                                  λ v s. refl,
                                  (
                                    λ v s. refl,
                                    (
                                      λ v s. refl,
                                      (
                                        λ v s. refl,
                                        (
                                          λ v s. refl,
                                          (
                                            λ v s. refl,
                                            (
                                              λ v s. refl,
                                              (
                                                λ v s. refl,
                                                (λ v s. refl, (λ v s. refl, (λ v s. refl, tt))),
                                              ),
                                            ),
                                          ),
                                        ),
                                      ),
                                    ),
                                  ),
                                ),
                              ),
                            ),
                          ),
                        ),
                      ),
                    ),
                  ),
                ),
              ),
            ),
          ),
        ),
      ),
    ),
  ),
)

pub single_parameter-member : (parameter : ℕ) → Agrees parameter
single_parameter-member parameter = elim (Bool-cases (ltb parameter 27)) [
  | inl h ↦ each_at Agrees 27 parameter Agrees-below (ground (arith, h))
  | inr h ↦ Agrees-above parameter (ground (arith, h))
]
