-- ===== src/Services/Enrollment/Email.antt =====
-- internal/services/mfa_email_service.go: enrolment of an email factor, and the delivery and the
-- check of its codes.
use golang_auth_api.Prelude.{
  ℕ, ◌+◌, not, ltb, leb, Option, none, some, List, [], ◌∷◌, ◌++◌, if◌then◌else◌, Str, codes, str_eq,
  is_empty, trim_space,
}
use golang_auth_api.Exec.{pure, raise, ◌>>=◌, ◌>>◌}
use golang_auth_api.Model.Errors.{
  unauthorized, internal_server_error, mfa_already_enabled, mfa_not_enabled, invalid_mfa_code,
  invalid_mfa_method, invalid_or_expired_token, invalid_payload, too_soon_to_request, code_expired,
  too_many_attempts,
}
use golang_auth_api.Model.Rows.{MfaType, MfaFactor, OtpMeta}
use golang_auth_api.Platform.{Env, Service, Reply, found, no_rows, failed, reply_of}
use golang_auth_api.Platform.Calls.{now, draw, query, statement, send_mail, is_found}
use golang_auth_api.Database.Mfa.{get_factor_by_user_id, increment_factor_failed_attempts}
use golang_auth_api.Database.Mfa.Enrollment.{upsert_pending_otp_factor, get_user_email_by_id}
use golang_auth_api.Auth.Jwt.{bearer, role_mfa_pending, verify_and_parse_temporary_jwt}
use golang_auth_api.Auth.OtpCode.{get_mfa_otp_code, save_mfa_otp_code, delete_mfa_otp_code}
use golang_auth_api.Services.Common.{must_find, attempt, require, or_raise}
use golang_auth_api.Services.Login.{method_email, list_enabled_mfa_methods}
use golang_auth_api.Services.Mfa.{purpose_login, mfa_method_enabled, constant_time_equal}
use golang_auth_api.Services.Enrollment.{
  require_not_enabled, generate_recovery_codes, complete_otp_factor_enrollment,
}

-- mfaOTPMaxAttempts
abbrev pub mfa_otp_max_attempts : ℕ
mfa_otp_max_attempts = 5

-- mfaOTPRegenerateWindow, in seconds
abbrev pub mfa_otp_regenerate_window : ℕ
mfa_otp_regenerate_window = 60

abbrev pub purpose_enroll : Str
purpose_enroll = codes "enroll"

module _ {C : Type 0} (env : Env C) where
  -- A code that is younger than the window stands in the way; a failed lookup does not.
  unfoldable pub require_not_recent : Option OtpMeta → Service C Unit
  require_not_recent none = pure tt
  require_not_recent (some existing) = do
    t ← now env
    require (leb (existing.created_at + mfa_otp_regenerate_window) t) too_soon_to_request

  -- sendMFAEmailCode
  unfoldable pub send_mfa_email_code : Str → Str → Str → Service C Unit
  unfolding require_not_recent
  send_mfa_email_code user_id email purpose = do
    existing ← get_mfa_otp_code env method_email purpose user_id
    require_not_recent existing
    code ← draw env env.random_code
    t ← now env
    saved ← save_mfa_otp_code env method_email purpose user_id (record {
      code = code;
      created_at = t;
      expires_at = t + env.config.otp_ttl;
      attempts = 0;
      max_attempts = mfa_otp_max_attempts;
    })
    require saved internal_server_error
    sent ← send_mail env code email
    require sent internal_server_error

  -- The four outcomes of a stored code.
  unfoldable pub check_otp_code : Str → Str → Str → ℕ → Str → OtpMeta → Service C Unit
  check_otp_code channel purpose user_id factor_id code meta = do
    t ← now env
    require (leb t meta.expires_at) code_expired
    require (ltb meta.attempts meta.max_attempts) too_many_attempts
    if constant_time_equal (trim_space code) meta.code then pure tt else (do
      save_mfa_otp_code env channel purpose user_id (record meta { attempts = meta.attempts + 1 })
      statement env (increment_factor_failed_attempts factor_id)
      raise invalid_mfa_code)

  -- verifyMFAOTPCode
  unfoldable pub verify_mfa_otp_code : Str → Str → Str → ℕ → Str → Service C Unit
  unfolding check_otp_code
  verify_mfa_otp_code channel purpose user_id factor_id code = do
    loaded ← get_mfa_otp_code env channel purpose user_id
    meta ← or_raise loaded invalid_mfa_code
    check_otp_code channel purpose user_id factor_id code meta

  -- EnrollEmailMFA
  unfoldable pub enroll_email_mfa : Str → Service C Unit
  enroll_email_mfa user_id = do
    user_pg ← or_raise (env.parse_uuid user_id) unauthorized
    existing ← query env (λ t db. reply_of (get_factor_by_user_id MfaType.email user_pg db))
    require_not_enabled env existing
    address ← query env (λ t db. reply_of (get_user_email_by_id user_pg db))
    email ← must_find address
    send_mfa_email_code user_id email purpose_enroll
    id ← draw env env.random_uuid
    upserted ← statement env (upsert_pending_otp_factor id MfaType.email user_pg)
    require (is_found upserted) internal_server_error

  unfoldable pub check_email_enrollment : Str → Str → Reply MfaFactor → Service C (List Str)
  unfolding verify_mfa_otp_code
  check_email_enrollment user_id code failed = raise internal_server_error
  check_email_enrollment user_id code no_rows = raise mfa_not_enabled
  check_email_enrollment user_id code (found factor) = do
    require (not factor.verified) mfa_already_enabled
    verify_mfa_otp_code method_email purpose_enroll user_id factor.id code
    recovery ← generate_recovery_codes env env.config.mfa_recovery_code_count
    done ← complete_otp_factor_enrollment env factor.id recovery.hashes
    require done internal_server_error
    delete_mfa_otp_code env method_email purpose_enroll user_id
    pure recovery.raw_codes

  -- VerifyEmailMFAEnrollment
  unfoldable pub verify_email_mfa_enrollment : Str → Str → Service C (List Str)
  unfolding check_email_enrollment
  verify_email_mfa_enrollment user_id code = do
    user_pg ← or_raise (env.parse_uuid user_id) unauthorized
    reply ← query env (λ t db. reply_of (get_factor_by_user_id MfaType.email user_pg db))
    check_email_enrollment user_id code reply

  -- The method that was asked for, or the first that is enabled.
  unfoldable pub chosen_method : List Str → Str → Service C Str
  chosen_method [] requested = raise mfa_not_enabled
  chosen_method (m ∷ ms) requested =
      if is_empty requested
      then pure m
      else (do require (mfa_method_enabled (m ∷ ms) requested) invalid_mfa_method; pure requested)

  -- SendMFALoginCode
  unfoldable pub send_mfa_login_code : Str → Str → Service C Unit
  unfolding chosen_method
  send_mfa_login_code challenge_token method = do
    parsed ←
        attempt (verify_and_parse_temporary_jwt env (bearer ++ challenge_token) role_mfa_pending)
    ids ← or_raise parsed invalid_or_expired_token
    user_pg ← or_raise (env.parse_uuid ids.0) unauthorized
    listed ← list_enabled_mfa_methods env user_pg
    methods ← or_raise listed internal_server_error
    requested ← chosen_method methods (trim_space method)
    require (str_eq requested method_email) invalid_payload
    address ← query env (λ t db. reply_of (get_user_email_by_id user_pg db))
    email ← must_find address
    send_mfa_email_code ids.0 email purpose_login
