-- ===== src/Services/Mfa/Factors.antt =====
-- What each of the three attempts of an MFA login has established when it accepts the code.
use golang_auth_api.Prelude.{
  ℕ, ◌+◌, ◌≡◌, refl, Bool, true, false, Option, none, some, is_some, if◌then◌else◌, Str, All,
  to_upper, arith,
}
use golang_auth_api.Prelude.Lists.{All-update_where}
use golang_auth_api.Exec.{Result, ok, ◌>>=◌, raise-ne-ok}
use golang_auth_api.Model.Errors.{ErrorDetail, internal_server_error}
use golang_auth_api.Model.Rows.{MfaType, MfaFactor, MfaRecoveryCode, Database}
use golang_auth_api.Platform.{Env, World, failed, reply_of}
use golang_auth_api.Platform.Calls.{now, query, statement}
use golang_auth_api.Database.Mfa.{
  get_factor_by_user_id, get_unused_mfa_recovery_code, mark_mfa_recovery_code_used,
}
use golang_auth_api.Auth.Jwt.{hash_opaque_token}
use golang_auth_api.Auth.Encryption.{decrypt_mfa_secret}
use golang_auth_api.Auth.Totp.{validate_totp_code}
use golang_auth_api.Services.Common.{text_of}
use golang_auth_api.Services.Mfa.{
  Progress, last_step, totp_outcome, check_totp, totp_reply, try_totp, recovery_reply, try_recovery,
}

module _ {C : Type 0} (env : Env C) (code : Str) where
  -- The recovery code with this identifier is used up.
  abbrev pub IsUsedUp : ℕ → Database → Type 0
  IsUsedUp id db = All (λ c. c.id ≡ id → is_some c.used_at ≡ true) db.mfa_recovery_codes

  abbrev pub UsedUpIfFound : Option MfaRecoveryCode → Database → Type 0
  UsedUpIfFound none db = Unit {0}
  UsedUpIfFound (some c) db = IsUsedUp c.id db

  mark-IsUsedUp : (id t : ℕ) (db : Database) → IsUsedUp id (mark_mfa_recovery_code_used id t db).1
  unfolding mark_mfa_recovery_code_used
  mark-IsUsedUp id t db =
      All-update_where _ _ _ (λ c h e. refl) (λ c h e. ground arith) db.mfa_recovery_codes

  -- What a TOTP code that was accepted has matched.
  pub record IsTotpOf (user_id t : ℕ) (db : Database) : Type 0 where
    pub factor : MfaFactor
    pub of_user : get_factor_by_user_id MfaType.totp user_id db ≡ some factor
    pub secret : Str
    pub decrypted : decrypt_mfa_secret env (text_of factor.secret) ≡ some secret
    pub step : ℕ
    pub matched : validate_totp_code env secret code (last_step factor.last_used_step) t ≡ some step

  not_proved :
      {p q : Progress}
      → ◌≡◌ {A = Result ErrorDetail Progress} (ok q) (ok p)
      → q.authenticated ≡ false
      → p.authenticated ≡ true
      → ⊥
  not_proved e unset set = cc

  totp_outcome-proved :
      (factor : MfaFactor) (o : Option ℕ) (w : World C) {p : Progress}
      → (totp_outcome env code factor o w).0 ≡ ok p
      → p.authenticated ≡ true
      → (step : ℕ) × (o ≡ some step)
  unfolding totp_outcome ◌>>=◌
  totp_outcome-proved factor none w h a = absurd (not_proved h refl a)
  totp_outcome-proved factor (some step) w h a = (step, refl)

  -- As the record, from the row of the factor.
  abbrev MatchesAt : ℕ → MfaFactor → Type 0
  MatchesAt t factor =
      (secret : Str) × (decrypt_mfa_secret env (text_of factor.secret) ≡ some secret)
      × (step : ℕ) × (validate_totp_code env secret code (last_step factor.last_used_step) t
          ≡ some step)

  check_totp-proved :
      (factor : MfaFactor) (o : Option Str) (w : World C) {p : Progress}
      → (check_totp env code factor o w).0 ≡ ok p
      → p.authenticated ≡ true
      → (secret : Str) × (o ≡ some secret)
        × (step : ℕ) × (validate_totp_code env secret code
              (last_step factor.last_used_step)
              (env.clock w.calls)
            ≡ some step)
  unfolding check_totp now ◌>>=◌
  check_totp-proved factor none w h a = absurd (raise-ne-ok internal_server_error w h)
  check_totp-proved factor (some secret) w h a =
      let (step, matched) = totp_outcome-proved factor _ _ h a in (secret, refl, step, matched)

  totp_reply-proved :
      (o : Option MfaFactor) (down : Bool) (w : World C) {p : Progress}
      → (totp_reply env code (if down then failed else reply_of o) w).0 ≡ ok p
      → p.authenticated ≡ true
      → (factor : MfaFactor) × (o ≡ some factor) × MatchesAt (env.clock w.calls) factor
  unfolding totp_reply ◌>>=◌
  totp_reply-proved o true w h a = absurd (raise-ne-ok internal_server_error w h)
  totp_reply-proved none false w h a = absurd (not_proved h refl a)
  totp_reply-proved (some factor) false w h a = (factor, refl, check_totp-proved factor _ w h a)

-- The TOTP attempt of an MFA login proves the login only if TOTP was asked for, the user has a TOTP
-- factor whose secret decrypts, and ValidateTOTPCode accepts the code for that secret after the last
-- used step of the factor.
pub try_totp-IsTotpOf :
    {C : Type 0} (env : Env C) (code : Str) (user_id : ℕ) (tried : Bool) (w : World C)
    {p : Progress}
    → (try_totp env code user_id tried w).0 ≡ ok p
    → p.authenticated ≡ true
    → (tried ≡ true) × IsTotpOf env code user_id (env.clock (w.calls + 1)) w.db
unfolding try_totp query ◌>>=◌
try_totp-IsTotpOf env code user_id false w h a = absurd (not_proved env code h refl a)
try_totp-IsTotpOf env code user_id true w h a =
    let (factor, of_user, (secret, decrypted, step, matched)) =
      totp_reply-proved env code _ (env.db_fails w.calls) _ h a in
    (
      refl,
      record {
        factor = factor;
        of_user = of_user;
        secret = secret;
        decrypted = decrypted;
        step = step;
        matched = matched;
      },
    )

-- The recovery attempt, where the database answers, accepts the code exactly if the hash of the
-- upper-cased code is that of a recovery code that is not used, of whichever account, and then every
-- row with the identifier of the code it found is marked as used.
pub try_recovery-any_account :
    {C : Type 0} (env : Env C) (code : Str) (p : Progress) (o : Option MfaRecoveryCode)
    (w : World C)
    → p.authenticated ≡ false
    → get_unused_mfa_recovery_code (hash_opaque_token env (to_upper code)) w.db ≡ o
    → env.db_fails w.calls ≡ false
    → env.db_fails (w.calls + 1) ≡ false
    → ((try_recovery env code p w).0 ≡ ok (record p { authenticated = is_some o }))
      × UsedUpIfFound env code o (try_recovery env code p w).1.db
unfolding try_recovery recovery_reply query statement ◌>>=◌
try_recovery-any_account env code p none w unset lookup up up' = rw (unset, up, lookup) (refl, tt)
try_recovery-any_account env code p (some recovery) w unset lookup up up' =
    rw (unset, up, lookup, up') (refl, mark-IsUsedUp env code recovery.id _ w.db)
