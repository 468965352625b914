-- ===== src/Auth/Totp/Replay.antt =====
-- Which TOTP codes ValidateTOTPCode accepts: the window of time steps and the replay guard.
use mathlib.Core.Path.{subst}
use mathlib.Core.Option.{some-injective}
use golang_auth_api.Prelude.{
  ℕ, zero, suc, ◌+◌, ◌<◌, ◌≤◌, ◌≡◌, refl, true, false, Option, none, some, List, [], ◌∷◌,
  Bool-cases, inl, inr, Str, str_eq, All, arith, ◌==◌,
}
use golang_auth_api.Platform.{Env}
use golang_auth_api.Auth.Totp.{totp_step, candidate_steps, accepts, first_match, validate_totp_code}

module _ {C : Type 0} (env : Env C) (secret code : Str) (last_used_step : ℕ) where
  abbrev pub InWindow : ℕ → ℕ → Type 0
  InWindow t step = (totp_step t ≤ step + 1) × (step ≤ totp_step t + 1)

  abbrev pub Fits : ℕ → Type 0
  Fits step =
      (last_used_step < step)
      × (c : Str) × (env.generate_totp_code secret step ≡ some c)
      × (str_eq c code ≡ true)

  code_matches :
      (o : Option Str)
      → elim o [ none ↦ false | some c ↦ str_eq c code ] ≡ true
      → (c : Str) × (o ≡ some c) × (str_eq c code ≡ true)
  code_matches none h = cc
  code_matches (some c) h = (c, refl, h)

  accepts-Fits : (step : ℕ) → accepts env secret code last_used_step step ≡ true → Fits step
  accepts-Fits step h =
      let (c, made, same) = code_matches (env.generate_totp_code secret step) (ground arith) in
      (ground arith, c, made, same)

  Fits-accepts : (step : ℕ) → Fits step → accepts env secret code last_used_step step ≡ true
  Fits-accepts step (new, c, made, eq) = rw made (ground arith)

  first_match-eq-some :
      (P : ℕ → Type 0) (steps : List ℕ) {step : ℕ}
      → All P steps
      → first_match env secret code last_used_step steps ≡ some step
      → P step × (accepts env secret code last_used_step step ≡ true)
  unfolding first_match
  first_match-eq-some P [] all h = cc
  first_match-eq-some P (s ∷ steps) (p, all) h =
      elim (Bool-cases (accepts env secret code last_used_step s)) [
        | inl hit ↦
            let same = some-injective _ _ (rw hit at h) in
            (subst P same p, subst (λ n. accepts env secret code last_used_step n ≡ true) same hit)
        | inr miss ↦ first_match-eq-some P steps all (rw miss at h)
      ]

  first_match-eq-none :
      (steps : List ℕ)
      → first_match env secret code last_used_step steps ≡ none
      → All (λ s. accepts env secret code last_used_step s ≡ false) steps
  unfolding first_match
  first_match-eq-none [] h = tt
  first_match-eq-none (s ∷ steps) h = elim (Bool-cases (accepts env secret code last_used_step s)) [
    | inl hit ↦ (let found = rw hit at h in cc)
    | inr miss ↦ (miss, first_match-eq-none steps (rw miss at h))
  ]

  steps_in_window : (n : ℕ) → All (λ s. (n ≤ s + 1) × (s ≤ n + 1)) (candidate_steps n)
  unfolding candidate_steps
  steps_in_window zero = ground arith
  steps_in_window (suc n) = ground arith

  window_covered :
      (P : ℕ → Type 0) (n step : ℕ)
      → n ≤ step + 1
      → step ≤ n + 1
      → All P (candidate_steps n)
      → P step
  unfolding candidate_steps
  window_covered P zero step low high (p, (q, _)) = elim (Bool-cases (step == 0)) [
    | inl e ↦ subst P (ground arith) p
    | inr e ↦ subst P (ground arith) q
  ]
  window_covered P (suc n) step low high (p, (q, (r, _))) = elim (Bool-cases (step == n)) [
    | inl e ↦ subst P (ground arith) p
    | inr ne ↦ elim (Bool-cases (step == suc n)) [
      | inl e ↦ subst P (ground arith) q
      | inr e ↦ subst P (ground arith) r
    ]
  ]

-- ValidateTOTPCode answers a time step only if the step is within one of the step of the clock, is
-- after the last used step, and the code of the secret at that step is the given code.
pub validate_totp_code-Fits :
    {C : Type 0} (env : Env C) (secret code : Str) (last_used_step t : ℕ) {step : ℕ}
    → validate_totp_code env secret code last_used_step t ≡ some step
    → InWindow env secret code last_used_step t step × Fits env secret code last_used_step step
unfolding validate_totp_code
validate_totp_code-Fits env secret code last t h =
    let (window, accepted) =
      first_match-eq-some env secret code last _ _
        (steps_in_window env secret code last (totp_step t)) h in
    (window, accepts-Fits env secret code last _ accepted)

-- If ValidateTOTPCode refuses a code, the code is that of no step within one of the step of the
-- clock and after the last used step.
pub validate_totp_code_complete :
    {C : Type 0} (env : Env C) (secret code : Str) (last_used_step t step : ℕ)
    → validate_totp_code env secret code last_used_step t ≡ none
    → InWindow env secret code last_used_step t step
    → ¬ Fits env secret code last_used_step step
unfolding validate_totp_code
validate_totp_code_complete env secret code last t step h (low, high) fits =
    let refused =
      window_covered env secret code last _ _ step low high
        (first_match-eq-none env secret code last _ h) in
    let accepted = Fits-accepts env secret code last step fits in cc
