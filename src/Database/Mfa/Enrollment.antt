-- ===== src/Database/Mfa/Enrollment.antt =====
-- internal/db/postgres/mfa.sql.go: the statements of an enrolment.
use golang_auth_api.Prelude.{
  ℕ, true, false, not, if◌then◌else◌, Option, none, some, [], ◌∷◌, ◌++◌, any, keep, update_where,
  ◌==◌, ◌||◌, Bool, Str, str_eq,
}
use golang_auth_api.Model.Rows.{MfaType, User, MfaFactor, MfaRecoveryCode, Database}
use golang_auth_api.Platform.{Reply, found, failed}
use golang_auth_api.Database.Users.{get_user_by_id}
use golang_auth_api.Database.Mfa.{change_factor, is_of}

abbrev pub new_factor : ℕ → ℕ → MfaType → Option Str → ℕ → MfaFactor
new_factor id user_id kind secret now = record {
  id = id;
  user_id = user_id;
  kind = kind;
  secret = secret;
  enabled = false;
  verified = false;
  failed_attempts = 0;
  last_used_at = none;
  last_used_step = none;
  created_at = now;
}

-- INSERT … ON CONFLICT (user_id, type) DO UPDATE: the row is there, or it is new.
unfoldable pub upsert_factor :
    MfaType → (MfaFactor → MfaFactor) → MfaFactor → ℕ → Database → Database
upsert_factor kind change row user_id db = record db {
  mfa_factors =
      if any (is_of kind user_id) db.mfa_factors
      then update_where (is_of kind user_id) change db.mfa_factors
      else db.mfa_factors ++ row ∷ [];
}

-- ON CONFLICT … DO UPDATE of a TOTP factor
abbrev pub restart_totp : Str → ℕ → MfaFactor → MfaFactor
restart_totp secret now f = record f {
  secret = some secret;
  verified = false;
  enabled = false;
  failed_attempts = 0;
  last_used_at = none;
  last_used_step = none;
  created_at = now;
}

-- ON CONFLICT … DO UPDATE of an email factor
abbrev pub restart_otp : ℕ → MfaFactor → MfaFactor
restart_otp now f = record f {
  verified = false;
  enabled = false;
  failed_attempts = 0;
  last_used_at = none;
  created_at = now;
}

unfoldable pub upsert_pending_totp_factor : ℕ → ℕ → Str → ℕ → Database → Reply Unit × Database
unfolding upsert_factor
upsert_pending_totp_factor id user_id secret now db = (
  found tt,
  upsert_factor MfaType.totp (restart_totp secret now)
      (new_factor id user_id MfaType.totp (some secret) now) user_id db,
)

unfoldable pub upsert_pending_otp_factor : ℕ → MfaType → ℕ → ℕ → Database → Reply Unit × Database
unfolding upsert_factor
upsert_pending_otp_factor id kind user_id now db = (
  found tt,
  upsert_factor kind (restart_otp now) (new_factor id user_id kind none now) user_id db,
)

-- VerifyTOTPFactor and VerifyOTPFactor are the same statement.
unfoldable pub verify_factor : ℕ → ℕ → Database → Reply Unit × Database
unfolding change_factor
verify_factor id now db =
    (found tt, change_factor id (λ m. record m { verified = true; enabled = true }) db)

unfoldable pub delete_mfa_recovery_codes_by_factor : ℕ → ℕ → Database → Reply Unit × Database
delete_mfa_recovery_codes_by_factor factor_id now db = (
  found tt,
  record db {
    mfa_recovery_codes = keep (λ c. not (c.factor_id == factor_id)) db.mfa_recovery_codes;
  },
)

-- The primary key, and the unique index on code_hash of db/migrations/005_mfa_recovery_codes.up.sql
abbrev pub is_code_conflict : ℕ → Str → MfaRecoveryCode → Bool
is_code_conflict id hash c = c.id == id || str_eq c.code_hash hash

unfoldable pub create_mfa_recovery_code : ℕ → ℕ → Str → ℕ → Database → Reply Unit × Database
create_mfa_recovery_code id factor_id hash now db =
    if any (is_code_conflict id hash) db.mfa_recovery_codes then (failed, db) else (
      found tt,
      record db {
        mfa_recovery_codes =
            db.mfa_recovery_codes
            ++ record { id = id; factor_id = factor_id; code_hash = hash; used_at = none } ∷ [];
      },
    )

abbrev email_of : Option User → Option Str
email_of none = none
email_of (some u) = some u.email

unfoldable pub get_user_email_by_id : ℕ → Database → Option Str
get_user_email_by_id id db = email_of (get_user_by_id id db)
