-- ===== src/Services/Signup.antt =====
-- internal/services/start_email_verification_service.go, verify_email_code_service.go and
-- complete_email_join_service.go, with CreateEmailUser of internal/db/postgres/user.go
pub mod Code
pub mod Join
pub mod Outcome
use golang_auth_api.Prelude.{
  ℕ, ◌+◌, Bool, true, false, not, ◌&&◌, ltb, leb, Option, none, some, [], if◌then◌else◌, Str,
  str_eq, is_empty, trim_space,
}
use golang_auth_api.Exec.{pure, raise, ◌>>=◌, ◌>>◌}
use golang_auth_api.Model.Errors.{
  unauthorized, internal_server_error, invalid_email_format, invalid_username_format,
  invalid_password_format, email_is_taken, username_taken, too_soon_to_request, incorrect_code,
  code_expired, too_many_attempts, token_generation_failed,
}
use golang_auth_api.Model.Rows.{OtpMeta, User}
use golang_auth_api.Platform.{Env, Service, Reply, found, no_rows, failed}
use golang_auth_api.Platform.Calls.{
  Tx, must, now, draw, query, statement, with_tx_value, cache_del, send_mail,
}
use golang_auth_api.Database.Identities.{is_email_registered}
use golang_auth_api.Database.Sessions.{create_refresh_session}
use golang_auth_api.Database.Users.{username_exists}
use golang_auth_api.Database.Accounts.{create_user, create_email_auth}
use golang_auth_api.Auth.Validations.{
  is_valid_email, is_valid_username, is_valid_password, is_valid_verification_code,
}
use golang_auth_api.Auth.Session.{email_code_key, delete_session, delete_temporary_session}
use golang_auth_api.Auth.Jwt.{TokenPair, role_joiner, generate_temporary_jwt, generate_user_tokens}
use golang_auth_api.Auth.Password.{hash_password_phc}
use golang_auth_api.Auth.OtpCode.{save_verification_code, get_verification_code}
use golang_auth_api.Services.Common.{RequestMeta, role_name, attempt, require, or_raise}
use golang_auth_api.Services.Login.{normalized, session_input}

-- const regenerateWindow = 1 * time.Minute
abbrev pub verification_window : ℕ
verification_window = 60

-- EmailJoinResult
pub record EmailJoinResult : Type 0 where
  pub access_token : Str
  pub refresh_token : Str
  pub user_id : Str
  pub username : Str

-- The email and the identifier of the temporary session that the middleware puts into the context.
pub record JoinContext : Type 0 where
  pub email : Str
  pub session_id : Str

-- `err == nil` of UsernameExists
abbrev pub exists_of : Reply Bool → Option Bool
exists_of (found b) = some b
exists_of no_rows = none
exists_of failed = none

module _ {C : Type 0} (env : Env C) where
  -- IsEmailTaken: a transaction with one query.
  unfoldable pub is_email_taken : Str → Service C (Option Bool)
  is_email_taken email =
      with_tx_value env
        (do reply ← query env (λ t db. found (is_email_registered email db)); must reply)

  -- A code of less than a minute ago; a failed lookup is none.
  unfoldable pub require_no_recent_code : Option OtpMeta → Service C Unit
  require_no_recent_code none = pure tt
  require_no_recent_code (some meta) = do
    t ← now env
    require (leb (meta.created_at + verification_window) t) too_soon_to_request

  abbrev pub fresh_code : Str → ℕ → OtpMeta
  fresh_code code t = record {
    code = code;
    created_at = t;
    expires_at = t + env.config.otp_ttl;
    attempts = 0;
    max_attempts = 5;
  }

  -- The code is stored, and then sent.
  unfoldable pub store_and_send : Str → Service C Unit
  store_and_send email = do
    code ← draw env env.random_code
    t ← now env
    saved ← save_verification_code env email (fresh_code code t)
    require saved internal_server_error
    sent ← send_mail env code email
    require sent internal_server_error

  -- StartEmailVerification
  unfoldable pub start_email_verification : Str → Service C Unit
  unfolding store_and_send
  start_email_verification email = do
    require (is_valid_email (normalized email)) invalid_email_format
    looked_up ← is_email_taken (normalized email)
    taken ← or_raise looked_up internal_server_error
    require (not taken) email_is_taken
    existing ← get_verification_code env (normalized email)
    require_no_recent_code existing
    store_and_send (normalized email)

  -- The joiner token, and the end of the code.
  unfoldable pub issue_joiner : Str → Service C Str
  issue_joiner email = do
    signed ← attempt (generate_temporary_jwt env email role_joiner env.config.temporary_token_ttl)
    token ← or_raise signed internal_server_error
    cache_del env (email_code_key email)
    pure token

  -- The stored code against the given one.
  unfoldable pub check_verification_code : Str → Str → OtpMeta → Service C Str
  unfolding issue_joiner
  check_verification_code email code meta = do
    t ← now env
    require (leb t meta.expires_at) code_expired
    require (ltb meta.attempts meta.max_attempts) too_many_attempts
    if str_eq code meta.code then issue_joiner email else (do
      save_verification_code env email (record meta { attempts = meta.attempts + 1 })
      raise incorrect_code)

  -- VerifyEmailCode
  unfoldable pub verify_email_code : Str → Str → Service C Str
  unfolding check_verification_code
  verify_email_code email code = do
    require (is_valid_email (normalized email)) invalid_email_format
    require (is_valid_verification_code (trim_space code)) incorrect_code
    loaded ← get_verification_code env (normalized email)
    meta ← or_raise loaded incorrect_code
    check_verification_code (normalized email) (trim_space code) meta

  -- CreateEmailUserInTx; an identifier that the database made is valid.
  unfoldable pub create_email_user_in_tx : Str → Str → Str → Tx C User
  create_email_user_in_tx email username hash = do
    exists ← query env (λ t db. found (username_exists username db))
    taken ← must exists
    require (not taken) tt
    id ← draw env env.random_uuid
    created ← statement env (create_user id email username)
    user ← must created
    identity_id ← draw env env.random_uuid
    added ← statement env (create_email_auth identity_id user.id email hash)
    must added
    pure user

  -- CreateEmailUser
  unfoldable pub create_email_user : Str → Str → Str → Service C (Option User)
  create_email_user email username hash =
      with_tx_value env (create_email_user_in_tx email username hash)

  module _ (meta : RequestMeta) (context : JoinContext) where
    -- After CreateRefreshSession.
    unfoldable pub finish_join : User → TokenPair → Reply Unit → Service C EmailJoinResult
    finish_join user tokens (found _) = do
      delete_temporary_session env context.session_id
      pure (record {
        access_token = tokens.access_token;
        refresh_token = tokens.refresh_token;
        user_id = env.show_uuid user.id;
        username = user.username;
      })
    finish_join user tokens no_rows = do
      delete_session env tokens.session_id
      raise token_generation_failed
    finish_join user tokens failed = do
      delete_session env tokens.session_id
      raise token_generation_failed

    -- The session of the new user.
    unfoldable pub start_session : User → Service C EmailJoinResult
    unfolding finish_join
    start_session user = do
      generated ← attempt (
          generate_user_tokens env (env.show_uuid user.id) user.username (role_name user.role)
            env.config.access_ttl env.config.refresh_ttl)
      tokens ← or_raise generated token_generation_failed
      saved ← statement env (create_refresh_session (session_input env meta user.id tokens))
      finish_join user tokens saved

    -- CompleteEmailJoin
    unfoldable pub complete_email_join : Str → Str → Str → Service C EmailJoinResult
    unfolding start_session
    complete_email_join username password confirm = do
      require (not (is_empty context.email) && is_valid_email context.email) unauthorized
      require (is_valid_username username) invalid_username_format
      require (is_valid_password password) invalid_password_format
      require (str_eq password confirm) invalid_password_format
      exists ← query env (λ t db. found (username_exists username db))
      taken ← or_raise (exists_of exists) internal_server_error
      require (not taken) username_taken
      hashed ← attempt (hash_password_phc env password)
      hash ← or_raise hashed internal_server_error
      created ← create_email_user context.email username hash
      user ← or_raise created internal_server_error
      start_session user
