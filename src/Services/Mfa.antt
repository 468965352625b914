-- ===== src/Services/Mfa.antt =====
-- internal/services/mfa_service.go: the second step of a login, and turning TOTP off.
pub mod Factors
pub mod Kept
pub mod Proof
pub mod Admission
pub mod EmailCode
use golang_auth_api.Prelude.{
  ℕ, ◌+◌, Bool, true, false, not, ◌&&◌, ◌||◌, ltb, leb, ◌==◌, Option, none, some, List, [], ◌∷◌,
  ◌++◌, if◌then◌else◌, any, length, Str, codes, str_eq, is_empty, trim_space, to_upper,
}
use golang_auth_api.Exec.{pure, raise, ◌>>=◌, ◌>>◌}
use golang_auth_api.Model.Errors.{
  unauthorized, internal_server_error, account_not_usable, invalid_credentials,
  invalid_or_expired_token, mfa_not_enabled, invalid_mfa_method, invalid_mfa_code,
}
use golang_auth_api.Model.Rows.{MfaType, MfaFactor, MfaRecoveryCode, OtpMeta}
use golang_auth_api.Platform.{Env, Service, Reply, found, no_rows, failed, reply_of}
use golang_auth_api.Platform.Calls.{now, query, statement, is_found}
use golang_auth_api.Database.Identities.{EmailAuth, get_email_auth_by_user_id}
use golang_auth_api.Database.Mfa.{
  get_factor_by_user_id, record_totp_success, record_otp_factor_success,
  increment_factor_failed_attempts, get_unused_mfa_recovery_code, mark_mfa_recovery_code_used,
  delete_factor,
}
use golang_auth_api.Auth.Session.{delete_temporary_session}
use golang_auth_api.Auth.Jwt.{
  bearer, role_mfa_pending, hash_opaque_token, verify_and_parse_temporary_jwt,
}
use golang_auth_api.Auth.Password.{verify_password_phc}
use golang_auth_api.Auth.Encryption.{decrypt_mfa_secret}
use golang_auth_api.Auth.Totp.{validate_totp_code}
use golang_auth_api.Auth.OtpCode.{get_mfa_otp_code, save_mfa_otp_code, delete_mfa_otp_code}
use golang_auth_api.Services.Common.{RequestMeta, text_of, attempt, require, or_raise}
use golang_auth_api.Services.Login.{
  LoginResult, method_totp, method_email, stored_hash, list_enabled_mfa_methods,
  issue_login_session,
}
use golang_auth_api.Services.Passwords.{is_unusable}

abbrev pub purpose_login : Str
purpose_login = codes "login"

-- mfaMethodEnabled
abbrev pub mfa_method_enabled : List Str → Str → Bool
mfa_method_enabled methods method = any (λ m. str_eq m method) methods

-- constantTimeEqual
abbrev pub constant_time_equal : Str → Str → Bool
constant_time_equal a b = length a == length b && str_eq a b

-- The local variables `authenticated` and `failedFactorID` between the three attempts.
pub record Progress : Type 0 where
  pub authenticated : Bool
  pub failed_factor : Option ℕ

abbrev pub unproved : Progress
unproved = record { authenticated = false; failed_factor = none }

abbrev pub proved : Progress → Progress
proved p = record p { authenticated = true }

-- tryMethod
abbrev pub try_method : Str → Str → Bool
try_method requested m = is_empty requested || str_eq requested m

-- LastUsedStep.Int64
abbrev pub last_step : Option ℕ → ℕ
last_step none = 0
last_step (some n) = n

module _ {C : Type 0} (env : Env C) where
  module _ (code : Str) where
    unfoldable pub totp_outcome : MfaFactor → Option ℕ → Service C Progress
    totp_outcome factor none =
        pure (record { authenticated = false; failed_factor = some factor.id })
    totp_outcome factor (some step) = do
      statement env (record_totp_success step factor.id)
      pure (proved unproved)

    -- The decrypted secret is checked at the time of the clock.
    unfoldable pub check_totp : MfaFactor → Option Str → Service C Progress
    unfolding totp_outcome
    check_totp factor none = raise internal_server_error
    check_totp factor (some secret) = do
      t ← now env
      totp_outcome factor (validate_totp_code env secret code (last_step factor.last_used_step) t)

    unfoldable pub totp_reply : Reply MfaFactor → Service C Progress
    unfolding check_totp
    totp_reply failed = raise internal_server_error
    totp_reply no_rows = pure unproved
    totp_reply (found factor) = check_totp factor (decrypt_mfa_secret env (text_of factor.secret))

    -- 1. TOTP
    unfoldable pub try_totp : ℕ → Bool → Service C Progress
    unfolding totp_reply
    try_totp user_pg tried =
        if tried
        then (do
          reply ← query env (λ t db. reply_of (get_factor_by_user_id MfaType.totp user_pg db))
          totp_reply reply)
        else pure unproved

    -- The switch over the stored code: true if the code is right.
    unfoldable pub check_email_code : Str → ℕ → OtpMeta → Service C Bool
    check_email_code user_id factor_id meta = do
      t ← now env
      if ltb meta.expires_at t || leb meta.max_attempts meta.attempts
          then pure false
          else if constant_time_equal code meta.code
          then (do
            statement env (record_otp_factor_success factor_id)
            delete_mfa_otp_code env method_email purpose_login user_id
            pure true)
          else (do
            save_mfa_otp_code env method_email purpose_login user_id
                (record meta { attempts = meta.attempts + 1 })
            pure false)

    unfoldable pub email_code_outcome : Str → ℕ → Option OtpMeta → Service C Bool
    unfolding check_email_code
    email_code_outcome user_id factor_id none = pure false
    email_code_outcome user_id factor_id (some meta) = check_email_code user_id factor_id meta

    unfoldable pub email_reply : Str → Progress → Reply MfaFactor → Service C Progress
    unfolding email_code_outcome
    email_reply user_id p failed = raise internal_server_error
    email_reply user_id p no_rows = pure p
    email_reply user_id p (found factor) = do
      meta ← get_mfa_otp_code env method_email purpose_login user_id
      right ← email_code_outcome user_id factor.id meta
      if right then pure (proved p) else pure (record p { failed_factor = some factor.id })

    -- 2. Email login code
    unfoldable pub try_email : Str → ℕ → Bool → Progress → Service C Progress
    unfolding email_reply
    try_email user_id user_pg tried p =
        if not p.authenticated && tried
        then (do
          reply ← query env (λ t db. reply_of (get_factor_by_user_id MfaType.email user_pg db))
          email_reply user_id p reply)
        else pure p

    unfoldable pub recovery_reply : Progress → Reply MfaRecoveryCode → Service C Progress
    recovery_reply p failed = raise internal_server_error
    recovery_reply p no_rows = pure p
    recovery_reply p (found recovery) = do
      statement env (mark_mfa_recovery_code_used recovery.id)
      pure (proved p)

    -- 3. Recovery code
    unfoldable pub try_recovery : Progress → Service C Progress
    unfolding recovery_reply
    try_recovery p = if p.authenticated then pure p else (do
      reply ← query env (λ t db.
          reply_of (get_unused_mfa_recovery_code (hash_opaque_token env (to_upper code)) db))
      recovery_reply p reply)

  unfoldable pub count_failure : Option ℕ → Service C Unit
  count_failure none = pure tt
  count_failure (some id) = do statement env (increment_factor_failed_attempts id); pure tt

  module _ (meta : RequestMeta) where
    unfoldable pub finish_mfa_login : Str → Reply EmailAuth → Service C LoginResult
    finish_mfa_login challenge failed = raise internal_server_error
    finish_mfa_login challenge no_rows = raise internal_server_error
    finish_mfa_login challenge (found identity) =
        if is_unusable identity then raise account_not_usable else (do
          delete_temporary_session env challenge
          issue_login_session env meta identity.user_id (some identity.identity_id)
              identity.username identity.role)

    -- After the three attempts.
    unfoldable pub conclude : Str → ℕ → Progress → Service C LoginResult
    unfolding finish_mfa_login
    conclude challenge user_pg p =
        if p.authenticated
        then (do
          identity ← query env (λ t db. reply_of (get_email_auth_by_user_id user_pg db))
          finish_mfa_login challenge identity)
        else (do count_failure p.failed_factor; raise invalid_mfa_code)

    -- The three attempts in their order.
    unfoldable pub prove_factor : Str → ℕ → List Str → Str → Str → Service C Progress
    prove_factor user_id user_pg methods requested code = do
      p ←
          try_totp code user_pg
            (try_method requested method_totp && mfa_method_enabled methods method_totp)
      p' ←
          try_email code user_id user_pg
            (try_method requested method_email && mfa_method_enabled methods method_email) p
      try_recovery code p'

    unfoldable pub with_methods : Str → Str → ℕ → List Str → Str → Str → Service C LoginResult
    unfolding conclude
    with_methods challenge user_id user_pg [] requested code = raise mfa_not_enabled
    with_methods challenge user_id user_pg (m ∷ ms) requested code = do
      require (is_empty requested || mfa_method_enabled (m ∷ ms) requested) invalid_mfa_method
      p ← prove_factor user_id user_pg (m ∷ ms) requested code
      conclude challenge user_pg p

    -- VerifyMFALogin
    unfoldable pub verify_mfa_login : Str → Str → Str → Service C LoginResult
    unfolding with_methods
    verify_mfa_login challenge_token method code = do
      parsed ←
          attempt (verify_and_parse_temporary_jwt env (bearer ++ challenge_token) role_mfa_pending)
      ids ← or_raise parsed invalid_or_expired_token
      user_pg ← or_raise (env.parse_uuid ids.0) unauthorized
      listed ← list_enabled_mfa_methods env user_pg
      methods ← or_raise listed internal_server_error
      with_methods ids.1 ids.0 user_pg methods (trim_space method) (trim_space code)

  unfoldable pub check_current : Str → Reply EmailAuth → Service C Unit
  check_current current failed = raise internal_server_error
  check_current current no_rows = raise internal_server_error
  check_current current (found identity) = do
    verified ←
        or_raise (verify_password_phc env current (stored_hash identity) true) internal_server_error
    require verified invalid_credentials

  -- verifyCurrentPasswordForFactorAction
  unfoldable pub verify_current_password : ℕ → Str → Service C Unit
  unfolding check_current
  verify_current_password user_pg current = do
    reply ← query env (λ t db. reply_of (get_email_auth_by_user_id user_pg db))
    check_current current reply

  -- `ErrNoRows` is "not enabled"; any other error is internal.
  unfoldable pub require_factor : Reply MfaFactor → Service C Unit
  require_factor failed = raise internal_server_error
  require_factor no_rows = raise mfa_not_enabled
  require_factor (found factor) = pure tt

  -- DisableMFA and DisableEmailMFA, for the type of factor
  unfoldable pub disable_mfa : MfaType → Str → Str → Service C Unit
  unfolding require_factor
  disable_mfa kind user_id current = do
    user_pg ← or_raise (env.parse_uuid user_id) unauthorized
    verify_current_password user_pg current
    reply ← query env (λ t db. reply_of (get_factor_by_user_id kind user_pg db))
    require_factor reply
    deleted ← statement env (delete_factor kind user_pg)
    require (is_found deleted) internal_server_error
