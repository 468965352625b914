-- ===== src/Services/Login.antt =====
-- internal/services/login_service.go, and listEnabledMFAMethods of mfa_service.go
pub mod Soundness
pub mod Lockout
pub mod MfaGate
use golang_auth_api.Prelude.{
  ℕ, ◌+◌, Bool, true, false, not, ◌&&◌, ◌||◌, ltb, leb, Option, none, some, List, [], ◌∷◌, ◌++◌,
  if◌then◌else◌, is_some, length, Str, codes, is_empty, trim_space, to_lower,
}
use golang_auth_api.Exec.{Exec, pure, raise, ◌>>=◌, ◌>>◌}
use golang_auth_api.Model.Errors.{
  internal_server_error, invalid_credentials, account_locked, account_not_usable,
  token_generation_failed,
}
use golang_auth_api.Model.Rows.{UserRole, MfaType, MfaFactor, LoginOutcome, is_blocked}
use golang_auth_api.Platform.{Env, World, Service, Reply, found, no_rows, failed, reply_of}
use golang_auth_api.Platform.Calls.{now, query, statement}
use golang_auth_api.Database.Identities.{
  EmailAuth, get_email_auth_by_email, increment_failed_login_attempts, lock_auth_identity,
  reset_failed_login_attempts, update_password_hash,
}
use golang_auth_api.Database.Sessions.{RefreshSessionInput, create_refresh_session}
use golang_auth_api.Database.Users.{touch_user_last_login}
use golang_auth_api.Database.Mfa.{get_factor_by_user_id}
use golang_auth_api.Auth.Validations.{is_valid_email}
use golang_auth_api.Auth.Session.{delete_session}
use golang_auth_api.Auth.Jwt.{
  TokenPair, generate_user_tokens, generate_temporary_jwt, hash_opaque_token, role_mfa_pending,
}
use golang_auth_api.Auth.Password.{verify_password_phc, should_rehash_active, hash_password_phc}
use golang_auth_api.Services.Common.{RequestMeta, role_name, text_of, attempt, record_login_attempt}

pub record LoginResult : Type 0 where
  pub access_token : Str
  pub refresh_token : Str
  pub user_id : Str
  pub username : Str
  pub mfa_required : Bool
  pub mfa_challenge_token : Str
  pub mfa_methods : List Str

abbrev pub method_totp : Str
method_totp = codes "totp"

abbrev pub method_email : Str
method_email = codes "email"

-- `err == nil && factor.Enabled.Bool` adds the method.
abbrev add_enabled : Str → MfaFactor → List Str → List Str
add_enabled method f methods = if f.enabled then methods ++ method ∷ [] else methods

abbrev with_factor : Str → List Str → Reply MfaFactor → Option (List Str)
with_factor method methods (found f) = some (add_enabled method f methods)
with_factor method methods no_rows = some methods
with_factor method methods failed = none

-- emailParsed
abbrev pub normalized : Str → Str
normalized email = to_lower (trim_space email)

-- identity.PasswordHash.String
abbrev pub stored_hash : EmailAuth → Str
stored_hash identity = text_of identity.password_hash

-- The first test of Login.
abbrev pub is_malformed : Str → Str → Bool
is_malformed email password =
    not (is_valid_email (normalized email)) || (is_empty password || ltb 256 (length password))

module _ {C : Type 0} (env : Env C) where
  module _ {E : Type 0} (user_id : ℕ) where
    abbrev factor_query : MfaType → Exec (World C) E (Reply MfaFactor)
    factor_query kind = query env (λ t db. reply_of (get_factor_by_user_id kind user_id db))

    unfoldable pub add_email_method : Option (List Str) → Exec (World C) E (Option (List Str))
    add_email_method none = pure none
    add_email_method (some methods) = do
      reply ← factor_query MfaType.email
      pure (with_factor method_email methods reply)

    -- `none` is an error of a lookup.
    unfoldable pub list_enabled_mfa_methods : Exec (World C) E (Option (List Str))
    unfolding add_email_method
    list_enabled_mfa_methods = do
      reply ← factor_query MfaType.totp
      add_email_method (with_factor method_totp [] reply)

  -- `sid, _ := uuid.Parse(…)`: the zero identifier on an error
  abbrev pub uuid_or_zero : Str → ℕ
  uuid_or_zero s = elim (env.parse_uuid s) [ none ↦ 0 | some id ↦ id ]

  module _ (meta : RequestMeta) where
    abbrev pub session_input : ℕ → TokenPair → RefreshSessionInput
    session_input user_id tokens = record {
      session_id = uuid_or_zero tokens.session_id;
      user_id = user_id;
      expires_at = tokens.refresh_exp;
      refresh_token_hash = hash_opaque_token env tokens.refresh_token;
      ip = meta.ip;
      user_agent = meta.user_agent;
    }

    abbrev pub logged_in : ℕ → Str → TokenPair → LoginResult
    logged_in user_id username tokens = record {
      access_token = tokens.access_token;
      refresh_token = tokens.refresh_token;
      user_id = env.show_uuid user_id;
      username = username;
      mfa_required = false;
      mfa_challenge_token = [];
      mfa_methods = [];
    }

    -- The end of issueLoginSession, after CreateRefreshSession has answered.
    unfoldable pub after_save : ℕ → Option ℕ → Str → TokenPair → Reply Unit → Service C LoginResult
    after_save user_id identity_id username tokens (found _) = do
      record_login_attempt env meta (some user_id) identity_id LoginOutcome.success
      pure (logged_in user_id username tokens)
    after_save user_id identity_id username tokens no_rows = do
      delete_session env tokens.session_id
      raise token_generation_failed
    after_save user_id identity_id username tokens failed = do
      delete_session env tokens.session_id
      raise token_generation_failed

    unfoldable pub save_session : ℕ → Option ℕ → Str → Option TokenPair → Service C LoginResult
    unfolding after_save
    save_session user_id identity_id username none = raise token_generation_failed
    save_session user_id identity_id username (some tokens) = do
      saved ← statement env (create_refresh_session (session_input user_id tokens))
      after_save user_id identity_id username tokens saved

    -- issueLoginSession; a login with a passkey has no identity.
    unfoldable pub issue_login_session : ℕ → Option ℕ → Str → UserRole → Service C LoginResult
    issue_login_session user_id identity_id username role = do
      statement env (touch_user_last_login user_id)
      tokens ← attempt (
          generate_user_tokens env (env.show_uuid user_id) username (role_name role)
            env.config.access_ttl env.config.refresh_ttl)
      save_session user_id identity_id username tokens

    module _ (password : Str) (identity : EmailAuth) where
      abbrev log_attempt : LoginOutcome → Service C (Reply Unit)
      log_attempt =
          record_login_attempt env meta (some identity.user_id) (some identity.identity_id)

      unfoldable pub save_rehash : Option Str → Service C Unit
      save_rehash none = pure tt
      save_rehash (some hash) = do
        statement env (update_password_hash hash identity.identity_id)
        pure tt

      unfoldable pub rehash_if : Option Bool → Service C Unit
      unfolding save_rehash
      rehash_if none = pure tt
      rehash_if (some false) = pure tt
      rehash_if (some true) = do hash ← attempt (hash_password_phc env password); save_rehash hash

      abbrev pub challenge_result : Str → List Str → LoginResult
      challenge_result token methods = record {
        access_token = [];
        refresh_token = [];
        user_id = [];
        username = [];
        mfa_required = true;
        mfa_challenge_token = token;
        mfa_methods = methods;
      }

      unfoldable pub send_challenge : List Str → Option Str → Service C LoginResult
      send_challenge methods none = raise internal_server_error
      send_challenge methods (some token) = do
        log_attempt LoginOutcome.mfa_required
        pure (challenge_result token methods)

      -- The MFA gate, and what comes after it.
      unfoldable pub after_methods : Option (List Str) → Service C LoginResult
      unfolding rehash_if send_challenge
      after_methods none = raise internal_server_error
      after_methods (some []) = do
        rehash_if (should_rehash_active env (stored_hash identity))
        issue_login_session identity.user_id (some identity.identity_id) identity.username
            identity.role
      after_methods (some (m ∷ ms)) = do
        token ← attempt (
            generate_temporary_jwt env (env.show_uuid identity.user_id) role_mfa_pending
              env.config.mfa_challenge_ttl)
        send_challenge (m ∷ ms) token

      unfoldable pub password_verified : Service C LoginResult
      unfolding after_methods
      password_verified =
          if is_blocked identity.status
          then (do log_attempt LoginOutcome.failed; raise account_not_usable)
          else (do
            statement env (reset_failed_login_attempts identity.identity_id)
            methods ← list_enabled_mfa_methods identity.user_id
            after_methods methods)

      unfoldable pub lock_if_exhausted : Reply ℕ → Service C Unit
      lock_if_exhausted no_rows = pure tt
      lock_if_exhausted failed = pure tt
      lock_if_exhausted (found attempts) =
          if leb env.config.login_max_failed_attempts attempts
          then (do statement env (lock_auth_identity identity.identity_id); pure tt)
          else pure tt

      unfoldable pub wrong_password : Service C LoginResult
      unfolding lock_if_exhausted
      wrong_password = do
        log_attempt LoginOutcome.failed
        attempts ← statement env (increment_failed_login_attempts identity.identity_id)
        lock_if_exhausted attempts
        raise invalid_credentials

      unfoldable pub check_password : Option Bool → Service C LoginResult
      unfolding wrong_password password_verified
      check_password none = raise internal_server_error
      check_password (some false) = wrong_password
      check_password (some true) = password_verified

      -- time.Since(LockedAt) < LoginLockDuration; the clock is read if a lock is set.
      unfoldable pub is_locked : Option ℕ → Service C Bool
      is_locked none = pure false
      is_locked (some at) = do t ← now env; pure (ltb t (at + env.config.login_lock_duration))

      unfoldable pub login_identity : Service C LoginResult
      unfolding check_password is_locked
      login_identity =
          if is_some identity.deleted_at
          then (do log_attempt LoginOutcome.failed; raise invalid_credentials)
          else (do
            locked ← is_locked identity.locked_at
            if locked
                then (do log_attempt LoginOutcome.locked; raise account_locked)
                else check_password (verify_password_phc env password (stored_hash identity) true))

    unfoldable pub login_reply : Str → Reply EmailAuth → Service C LoginResult
    unfolding login_identity
    login_reply password failed = raise internal_server_error
    login_reply password no_rows = do
      record_login_attempt env meta none none LoginOutcome.failed
      raise invalid_credentials
    login_reply password (found identity) = login_identity password identity

    -- Login. VerifyDummyPassword has no result and no effect on the state.
    unfoldable pub login : Str → Str → Service C LoginResult
    unfolding login_reply
    login email password = if is_malformed email password then raise invalid_credentials else (do
      reply ← query env (λ t db. reply_of (get_email_auth_by_email (normalized email) db))
      login_reply password reply)
