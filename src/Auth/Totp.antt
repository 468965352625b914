-- ===== src/Auth/Totp.antt =====
-- internal/auth/mfa_totp.go: the time steps of a TOTP code and the replay guard.
pub mod Replay
use golang_auth_api.Prelude.{
  ℕ, zero, suc, ◌+◌, ◌/◌, Bool, false, ◌&&◌, ltb, Option, none, some, List, [], ◌∷◌, if◌then◌else◌,
  Str, codes, str_eq, join,
}
use golang_auth_api.Exec.{pure, ◌>>=◌}
use golang_auth_api.Platform.{Env}
use golang_auth_api.Platform.Calls.{draw}
use golang_auth_api.Auth.Jwt.{Fallible, present}

abbrev pub totp_period : ℕ
totp_period = 30

-- totpStep, of a time in seconds
unfoldable pub totp_step : ℕ → ℕ
totp_step t = t / totp_period

-- current - 1, current, current + 1. Before step 0 lies step -1, which is at most every last used
-- step and so is never tried.
unfoldable pub candidate_steps : ℕ → List ℕ
candidate_steps zero = 0 ∷ 1 ∷ []
candidate_steps (suc n) = n ∷ suc n ∷ (suc n + 1) ∷ []

-- The loop of GenerateMFARecoveryCode: groups of four, the last one may be shorter.
unfoldable pub groups_of_four : Str → List Str
groups_of_four (a ∷ b ∷ c ∷ d ∷ rest) = (a ∷ b ∷ c ∷ d ∷ []) ∷ groups_of_four rest
groups_of_four [] = []
groups_of_four (a ∷ []) = (a ∷ []) ∷ []
groups_of_four (a ∷ b ∷ []) = (a ∷ b ∷ []) ∷ []
groups_of_four (a ∷ b ∷ c ∷ []) = (a ∷ b ∷ c ∷ []) ∷ []

module _ {C : Type 0} (env : Env C) where
  -- GenerateMFARecoveryCode
  unfoldable pub generate_mfa_recovery_code : Fallible C Str
  unfolding groups_of_four
  generate_mfa_recovery_code = do
    drawn ← draw env (env.random_bytes 10)
    bytes ← present drawn
    pure (join (codes "-") (groups_of_four (env.base32_encode bytes)))

module _ {C : Type 0} (env : Env C) (secret code : Str) (last_used_step : ℕ) where
  abbrev pub accepts : ℕ → Bool
  accepts step =
      ltb last_used_step step
      && (elim (env.generate_totp_code secret step) [ none ↦ false | some c ↦ str_eq c code ])

  -- The loop over the steps: the first that is new and whose code is the given one.
  unfoldable pub first_match : List ℕ → Option ℕ
  first_match [] = none
  first_match (step ∷ steps) = if accepts step then some step else first_match steps

  -- ValidateTOTPCode: the matched step.
  unfoldable pub validate_totp_code : ℕ → Option ℕ
  unfolding first_match candidate_steps totp_step
  validate_totp_code t = first_match (candidate_steps (totp_step t))
