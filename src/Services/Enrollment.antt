-- ===== src/Services/Enrollment.antt =====
-- internal/services/mfa_service.go: TOTP enrolment and recovery codes, with the transactions of
-- internal/db/postgres/mfa.go
pub mod Email
pub mod Pending
pub mod Completion
pub mod Verified
pub mod Attempts
use golang_auth_api.Prelude.{
  ℕ, zero, suc, Bool, true, false, not, Option, none, some, List, [], ◌∷◌, if◌then◌else◌, Str,
  trim_space,
}
use golang_auth_api.Exec.{pure, raise, ◌>>=◌, ◌>>◌}
use golang_auth_api.Model.Errors.{
  unauthorized, internal_server_error, mfa_already_enabled, mfa_not_enabled, invalid_mfa_code,
}
use golang_auth_api.Model.Rows.{MfaType, MfaFactor}
use golang_auth_api.Platform.{Env, Service, Reply, found, no_rows, failed, reply_of}
use golang_auth_api.Platform.Calls.{Tx, must, now, draw, query, statement, with_tx, is_found}
use golang_auth_api.Database.Mfa.{
  get_factor_by_user_id, record_totp_success, record_otp_factor_success,
  increment_factor_failed_attempts,
}
use golang_auth_api.Database.Mfa.Enrollment.{
  upsert_pending_totp_factor, verify_factor, delete_mfa_recovery_codes_by_factor,
  create_mfa_recovery_code,
}
use golang_auth_api.Auth.Jwt.{hash_opaque_token}
use golang_auth_api.Auth.Encryption.{encrypt_mfa_secret, decrypt_mfa_secret}
use golang_auth_api.Auth.Totp.{validate_totp_code, generate_mfa_recovery_code}
use golang_auth_api.Services.Common.{text_of, attempt, require, or_raise}
use golang_auth_api.Services.Mfa.{last_step}

-- MFAEnrollResult
pub record MfaEnrollResult : Type 0 where
  pub secret : Str
  pub provisioning_uri : Str

-- `rawCodes, hashes`
pub record RecoveryCodes : Type 0 where
  pub raw_codes : List Str
  pub hashes : List Str

module _ {C : Type 0} (env : Env C) where
  -- An enabled factor cannot be enrolled again; a missing one is not an error.
  unfoldable pub require_not_enabled : Reply MfaFactor → Service C Unit
  require_not_enabled failed = raise internal_server_error
  require_not_enabled no_rows = pure tt
  require_not_enabled (found factor) = require (not factor.enabled) mfa_already_enabled

  -- EnrollMFA
  unfoldable pub enroll_mfa : Str → Str → Service C MfaEnrollResult
  enroll_mfa user_id username = do
    user_pg ← or_raise (env.parse_uuid user_id) unauthorized
    existing ← query env (λ t db. reply_of (get_factor_by_user_id MfaType.totp user_pg db))
    require_not_enabled existing
    generated ← draw env (env.generate_totp_key env.config.mfa_issuer username)
    key ← or_raise generated internal_server_error
    encrypted ← attempt (encrypt_mfa_secret env key.0)
    stored ← or_raise encrypted internal_server_error
    id ← draw env env.random_uuid
    upserted ← statement env (upsert_pending_totp_factor id user_pg stored)
    require (is_found upserted) internal_server_error
    pure (record { secret = key.0; provisioning_uri = key.1 })

  -- The loop of generateRecoveryCodes, with n codes to go.
  unfoldable pub generate_recovery_codes : ℕ → Service C RecoveryCodes
  generate_recovery_codes zero = pure (record { raw_codes = []; hashes = [] })
  generate_recovery_codes (suc n) = do
    drawn ← attempt (generate_mfa_recovery_code env)
    raw ← or_raise drawn internal_server_error
    rest ← generate_recovery_codes n
    pure (record {
      raw_codes = raw ∷ rest.raw_codes;
      hashes = hash_opaque_token env raw ∷ rest.hashes;
    })

  -- The loop of CreateMFARecoveryCode over the hashes.
  unfoldable pub create_recovery_codes : ℕ → List Str → Tx C Unit
  create_recovery_codes factor_id [] = pure tt
  create_recovery_codes factor_id (hash ∷ hashes) = do
    id ← draw env env.random_uuid
    created ← statement env (create_mfa_recovery_code id factor_id hash)
    must created
    create_recovery_codes factor_id hashes

  -- CompleteMFAEnrollment
  unfoldable pub complete_mfa_enrollment : ℕ → ℕ → List Str → Service C Bool
  complete_mfa_enrollment factor_id matched_step hashes = with_tx env (do
    verified ← statement env (verify_factor factor_id)
    must verified
    recorded ← statement env (record_totp_success matched_step factor_id)
    must recorded
    deleted ← statement env (delete_mfa_recovery_codes_by_factor factor_id)
    must deleted
    create_recovery_codes factor_id hashes)

  -- CompleteOTPFactorEnrollment
  unfoldable pub complete_otp_factor_enrollment : ℕ → List Str → Service C Bool
  complete_otp_factor_enrollment factor_id hashes = with_tx env (do
    verified ← statement env (verify_factor factor_id)
    must verified
    recorded ← statement env (record_otp_factor_success factor_id)
    must recorded
    deleted ← statement env (delete_mfa_recovery_codes_by_factor factor_id)
    must deleted
    create_recovery_codes factor_id hashes)

  -- After ValidateTOTPCode: the matched step, or a wrong code.
  unfoldable pub enrollment_outcome : ℕ → Option ℕ → Service C (List Str)
  enrollment_outcome factor_id none = do
    statement env (increment_factor_failed_attempts factor_id)
    raise invalid_mfa_code
  enrollment_outcome factor_id (some step) = do
    recovery ← generate_recovery_codes env.config.mfa_recovery_code_count
    done ← complete_mfa_enrollment factor_id step recovery.hashes
    require done internal_server_error
    pure recovery.raw_codes

  unfoldable pub check_enrollment : Str → Reply MfaFactor → Service C (List Str)
  unfolding enrollment_outcome
  check_enrollment code failed = raise internal_server_error
  check_enrollment code no_rows = raise mfa_not_enabled
  check_enrollment code (found factor) = do
    require (not factor.verified) mfa_already_enabled
    secret ← or_raise (decrypt_mfa_secret env (text_of factor.secret)) internal_server_error
    t ← now env
    enrollment_outcome factor.id
        (validate_totp_code env secret (trim_space code) (last_step factor.last_used_step) t)

  -- VerifyMFAEnrollment: the raw recovery codes
  unfoldable pub verify_mfa_enrollment : Str → Str → Service C (List Str)
  unfolding check_enrollment
  verify_mfa_enrollment user_id code = do
    user_pg ← or_raise (env.parse_uuid user_id) unauthorized
    reply ← query env (λ t db. reply_of (get_factor_by_user_id MfaType.totp user_pg db))
    check_enrollment code reply
