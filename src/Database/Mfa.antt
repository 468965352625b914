-- ===== src/Database/Mfa.antt =====
-- internal/db/postgres/mfa.sql.go: lookups and counters of MFA factors and recovery codes.
pub mod Enrollment
use golang_auth_api.Prelude.{
  List, not, keep, any, map, ℕ, ◌+◌, Bool, true, false, ◌&&◌, Option, some, ◌==◌, find,
  update_where, Str, str_eq,
}
use golang_auth_api.Model.Rows.{MfaType, MfaFactor, MfaRecoveryCode, Database}
use golang_auth_api.Database.Users.{is_none}
use golang_auth_api.Platform.{Reply, found}

abbrev pub same_type : MfaType → MfaType → Bool
same_type MfaType.totp MfaType.totp = true
same_type MfaType.email MfaType.email = true
same_type MfaType.sms MfaType.sms = true
same_type _ _ = false

-- WHERE user_id = … AND type = …
unfoldable pub get_factor_by_user_id : MfaType → ℕ → Database → Option MfaFactor
get_factor_by_user_id kind id db =
    find (λ f. f.user_id == id && same_type f.kind kind) db.mfa_factors

unfoldable pub change_factor : ℕ → (MfaFactor → MfaFactor) → Database → Database
change_factor id f db = record db { mfa_factors = update_where (λ m. m.id == id) f db.mfa_factors }

unfoldable pub record_totp_success : ℕ → ℕ → ℕ → Database → Reply Unit × Database
unfolding change_factor
record_totp_success step id now db = (
  found tt,
  change_factor id
      (λ m. record m { last_used_at = some now; last_used_step = some step; failed_attempts = 0 })
      db,
)

unfoldable pub record_otp_factor_success : ℕ → ℕ → Database → Reply Unit × Database
unfolding change_factor
record_otp_factor_success id now db =
    (found tt, change_factor id (λ m. record m { last_used_at = some now; failed_attempts = 0 }) db)

-- IncrementTOTPFailedAttempts and IncrementOTPFactorFailedAttempts are the same statement.
unfoldable pub increment_factor_failed_attempts : ℕ → ℕ → Database → Reply Unit × Database
unfolding change_factor
increment_factor_failed_attempts id now db =
    (found tt, change_factor id (λ m. record m { failed_attempts = m.failed_attempts + 1 }) db)

-- WHERE code_hash = … AND used_at IS NULL
abbrev pub is_unused : Str → MfaRecoveryCode → Bool
is_unused hash c = str_eq c.code_hash hash && is_none c.used_at

unfoldable pub get_unused_mfa_recovery_code : Str → Database → Option MfaRecoveryCode
get_unused_mfa_recovery_code hash db = find (is_unused hash) db.mfa_recovery_codes

unfoldable pub mark_mfa_recovery_code_used : ℕ → ℕ → Database → Reply Unit × Database
mark_mfa_recovery_code_used id now db = (
  found tt,
  record db {
    mfa_recovery_codes =
        update_where (λ c. c.id == id) (λ c. record c { used_at = some now }) db.mfa_recovery_codes;
  },
)

abbrev factor_ids : List MfaFactor → List ℕ
factor_ids fs = map (λ f. f.id) fs

abbrev pub is_of : MfaType → ℕ → MfaFactor → Bool
is_of kind user_id f = f.user_id == user_id && same_type f.kind kind

-- DELETE FROM mfa_factors WHERE user_id = … AND type = …; the recovery codes of the rows go with them
-- (ON DELETE CASCADE).
unfoldable pub delete_factor : MfaType → ℕ → ℕ → Database → Reply Unit × Database
delete_factor kind user_id now db = (
  found tt,
  record db {
    mfa_factors = keep (λ f. not (is_of kind user_id f)) db.mfa_factors;
    mfa_recovery_codes =
        keep
          (λ c.
            not (
              any (λ id. id == c.factor_id)
                (factor_ids (keep (is_of kind user_id) db.mfa_factors))))
          db.mfa_recovery_codes;
  },
)
