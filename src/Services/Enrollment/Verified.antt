-- ===== src/Services/Enrollment/Verified.antt =====
-- What VerifyMFAEnrollment leaves.
use mathlib.Core.Path.{subst}
use golang_auth_api.Prelude.{
  ◌≡◌, ap, refl, ℕ, zero, suc, Bool, true, false, not, Option, none, some, List, ◌∷◌, ◌⊎◌, inl, inr,
  if◌then◌else◌, length, map, trim_space, Str,
}
use golang_auth_api.Exec.{
  Exec, raise, Result, ok, err, bind-eq-ok, pure-eq-ok, holds-bind, holds-require, holds-or_raise,
  ◌>>=◌, ◌>>◌, pure, require,
}
use golang_auth_api.Exec.Preserves.{Preserves, preserves_rules}
use golang_auth_api.Model.Errors.{ErrorDetail, internal_server_error}
use golang_auth_api.Model.Rows.{MfaType, MfaFactor, Database}
use golang_auth_api.Platform.{Env, World, failed, reply_of}
use golang_auth_api.Platform.Transactions.{Atomic}
use golang_auth_api.Platform.Frame.{
  HasDatabase, calls_frame, holds-query, holds-now, holds-statement,
}
use golang_auth_api.Database.Mfa.{get_factor_by_user_id, increment_factor_failed_attempts}
use golang_auth_api.Auth.Jwt.{hash_opaque_token}
use golang_auth_api.Auth.Encryption.{decrypt_mfa_secret}
use golang_auth_api.Auth.Totp.{validate_totp_code, generate_mfa_recovery_code}
use golang_auth_api.Services.Common.{text_of}
use golang_auth_api.Services.Passwords.Outcome.{Preserves-attempt}
use golang_auth_api.Services.Mfa.{last_step}
use golang_auth_api.Services.Enrollment.{
  RecoveryCodes, generate_recovery_codes, complete_mfa_enrollment, enrollment_outcome,
  check_enrollment, verify_mfa_enrollment,
}
use golang_auth_api.Services.Enrollment.Completion.{IsTotpEnrolled, complete_mfa_enrollment-Atomic}

module _ {C : Type 0} (env : Env C) where
  Preserves-generate : (d : Database) → Preserves (HasDatabase d) (generate_mfa_recovery_code env)
  unfolding generate_mfa_recovery_code
  Preserves-generate d = search (preserves_rules, calls_frame)

  pub Preserves-generate_recovery_codes :
      (d : Database) (n : ℕ) → Preserves (HasDatabase d) (generate_recovery_codes env n)
  unfolding generate_recovery_codes
  Preserves-generate_recovery_codes d zero = search preserves_rules
  Preserves-generate_recovery_codes d (suc n) =
      let rest = Preserves-generate_recovery_codes d n in
      let one = Preserves-attempt env {E = ErrorDetail} d _ (Preserves-generate d) in
      search preserves_rules

  -- As many codes as were asked for, each with its hash.
  pub record IsBatch (n : ℕ) (codes : RecoveryCodes) : Type 0 where
    pub size : length codes.raw_codes ≡ n
    pub hashed : codes.hashes ≡ map (hash_opaque_token env) codes.raw_codes

  cons-IsBatch :
      (n : ℕ) (raw : Str) (rest codes : RecoveryCodes)
      → IsBatch n rest
      → record {
        raw_codes = raw ∷ rest.raw_codes;
        hashes = hash_opaque_token env raw ∷ rest.hashes;
      }
        ≡ codes
      → IsBatch (suc n) codes
  cons-IsBatch n raw rest codes batch e = subst (IsBatch (suc n)) e (record {
    size = ap suc batch.size;
    hashed = ap (λ hs. hash_opaque_token env raw ∷ hs) batch.hashed;
  })

  pub generate_recovery_codes-IsBatch :
      (n : ℕ) (w : World C) {codes : RecoveryCodes}
      → (generate_recovery_codes env n w).0 ≡ ok codes
      → IsBatch n codes
  unfolding generate_recovery_codes
  generate_recovery_codes-IsBatch zero w h =
      subst (IsBatch 0) (pure-eq-ok _ w h) (record { size = refl; hashed = refl })
  generate_recovery_codes-IsBatch (suc n) w {codes} h =
      let (drawn, _, after_draw) = bind-eq-ok _ _ w h in
      let (raw, _, after_raise) = bind-eq-ok _ _ _ after_draw in
      let (rest, ran, last) = bind-eq-ok _ _ _ after_raise in
      cons-IsBatch n raw rest codes (generate_recovery_codes-IsBatch n _ ran) (pure-eq-ok _ _ last)

-- The pending TOTP factor of the user, activated by a code of its secret, with the recovery codes that
-- were returned.
pub record IsVerifiedBy {C : Type 0} (env : Env C) (user_id code : Str) (before : Database)
    (codes : List Str) (later : Database) : Type 0 where
  pub user_pg : ℕ
  pub parsed : env.parse_uuid user_id ≡ some user_pg
  pub factor : MfaFactor
  pub of_user : get_factor_by_user_id MfaType.totp user_pg before ≡ some factor
  pub unverified : not factor.verified ≡ true
  pub secret : Str
  pub decrypted : decrypt_mfa_secret env (text_of factor.secret) ≡ some secret
  pub time : ℕ
  pub step : ℕ
  pub matched :
      validate_totp_code env secret (trim_space code) (last_step factor.last_used_step) time
      ≡ some step
  pub size : length codes ≡ env.config.mfa_recovery_code_count
  pub done : IsTotpEnrolled factor.id step (map (hash_opaque_token env) codes) later

-- Of an error: the database is as it was, but that a failed attempt may be counted at the factor.
abbrev pub IsCounted : ℕ → Database → Database → Type 0
IsCounted t before later =
    (later ≡ before) ⊎ ((id : ℕ) × (later ≡ (increment_factor_failed_attempts id t before).1))

module _ {C : Type 0} (env : Env C) (user_id code : Str) (before : Database) where
  abbrev pub VerifyResult : Result ErrorDetail (List Str) → Database → Type 0
  VerifyResult (ok codes) later = IsVerifiedBy env user_id code before codes later
  VerifyResult (err e) later = (t : ℕ) × IsCounted t before later

  abbrev pub VerifyOutcome : Result ErrorDetail (List Str) × World C → Type 0
  VerifyOutcome x = VerifyResult x.0 x.1.db

  raised-VerifyOutcome :
      (t : ℕ) (e : ErrorDetail) (w : World C) → IsCounted t before w.db → VerifyOutcome (raise e w)
  unfolding ◌>>=◌
  raised-VerifyOutcome t e w h = (t, h)

  module _ (user_pg : ℕ) (factor : MfaFactor) (secret : Str)
      (parsed : env.parse_uuid user_id ≡ some user_pg)
      (of_user : get_factor_by_user_id MfaType.totp user_pg before ≡ some factor)
      (unverified : not factor.verified ≡ true)
      (decrypted : decrypt_mfa_secret env (text_of factor.secret) ≡ some secret) where
    committed-VerifyOutcome :
        (time step : ℕ) (codes : RecoveryCodes) (m : Exec (World C) ErrorDetail Bool) (w : World C)
        → validate_totp_code env secret (trim_space code) (last_step factor.last_used_step) time
          ≡ some step
        → IsBatch env env.config.mfa_recovery_code_count codes
        → Atomic (IsTotpEnrolled factor.id step codes.hashes) before (m w)
        → VerifyOutcome
            ((m >>= λ done. require done internal_server_error >> pure codes.raw_codes) w)
    unfolding ◌>>=◌
    committed-VerifyOutcome time step codes m w matched batch (inl (refused, same)) =
        rw refused (time, inl same)
    committed-VerifyOutcome time step codes m w matched batch (inr (ran, done)) = rw ran (record {
      user_pg = user_pg;
      parsed = parsed;
      factor = factor;
      of_user = of_user;
      unverified = unverified;
      secret = secret;
      decrypted = decrypted;
      time = time;
      step = step;
      matched = matched;
      size = batch.size;
      done = subst (λ hs. IsTotpEnrolled factor.id step hs (m w).1.db) batch.hashed done;
    })

    enrollment_outcome-VerifyOutcome :
        (time : ℕ) (o : Option ℕ) (w : World C)
        → w.db ≡ before
        → validate_totp_code env secret (trim_space code) (last_step factor.last_used_step) time ≡ o
        → VerifyOutcome (enrollment_outcome env factor.id o w)
    unfolding enrollment_outcome
    enrollment_outcome-VerifyOutcome time none w same matched =
        holds-statement env VerifyOutcome _ _ w (raised-VerifyOutcome time _ _ (inl same)) (
          raised-VerifyOutcome (env.clock w.calls) _ _ (
            inr (
              factor.id,
              ap (λ d. (increment_factor_failed_attempts factor.id (env.clock w.calls) d).1) same,
            )))
    enrollment_outcome-VerifyOutcome time (some step) w same matched =
        let n = env.config.mfa_recovery_code_count in
        let kept = (Preserves-generate_recovery_codes env before n).kept w same in
        holds-bind VerifyOutcome _ _ w (λ e h. (env.clock 0, inl kept))
          (λ codes ran.
            committed-VerifyOutcome time step codes _ _ matched
              (generate_recovery_codes-IsBatch env n w ran)
              (subst
                (λ d. Atomic (IsTotpEnrolled factor.id step codes.hashes) d (
                  complete_mfa_enrollment env factor.id step codes.hashes
                    (generate_recovery_codes env n w).1))
                kept (complete_mfa_enrollment-Atomic env factor.id step codes.hashes _)))

  check_enrollment-VerifyOutcome :
      (user_pg : ℕ) (o : Option MfaFactor) (down : Bool) (w : World C)
      → w.db ≡ before
      → env.parse_uuid user_id ≡ some user_pg
      → get_factor_by_user_id MfaType.totp user_pg before ≡ o
      → VerifyOutcome (check_enrollment env code (if down then failed else reply_of o) w)
  unfolding check_enrollment
  check_enrollment-VerifyOutcome user_pg o true w same parsed of_user =
      raised-VerifyOutcome 0 _ w (inl same)
  check_enrollment-VerifyOutcome user_pg none false w same parsed of_user =
      raised-VerifyOutcome 0 _ w (inl same)
  check_enrollment-VerifyOutcome user_pg (some factor) false w same parsed of_user =
      holds-require VerifyOutcome _ _ _ w (λ e. (0, inl same))
        (λ unverified.
          holds-or_raise VerifyOutcome _ _ _ w (λ e. (0, inl same))
            (λ secret decrypted. holds-now env VerifyOutcome _ w (
              enrollment_outcome-VerifyOutcome user_pg factor secret parsed of_user unverified
                decrypted _ _ _ same refl)))

-- VerifyMFAEnrollment either returns an error and leaves the database as it was but for the count of
-- failed attempts of a factor, or the user had a TOTP factor that was not verified, the code was that of
-- a time step of its secret, and then the factor is verified, enabled and used at that step, and its
-- recovery codes are exactly those returned, as many as configured, each stored by its hash and unused.
pub verify_mfa_enrollment-VerifyOutcome :
    {C : Type 0} (env : Env C) (user_id code : Str) (w : World C)
    → VerifyOutcome env user_id code w.db (verify_mfa_enrollment env user_id code w)
unfolding verify_mfa_enrollment
verify_mfa_enrollment-VerifyOutcome env user_id code w =
    let Q = VerifyOutcome env user_id code w.db in
    holds-or_raise Q _ _ _ w (λ e. (0, inl refl))
      (λ user_pg parsed. holds-query env Q _ _ w (
        check_enrollment-VerifyOutcome env user_id code w.db user_pg _ (env.db_fails w.calls) _ refl
          parsed refl))
