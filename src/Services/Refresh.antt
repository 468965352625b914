-- ===== src/Services/Refresh.antt =====
-- internal/services/refresh_token_service.go and logout_service.go
pub mod Soundness
pub mod Revocation
pub mod LockedOut
use golang_auth_api.Prelude.{
  [], ℕ, Bool, not, ◌||◌, Option, none, some, if◌then◌else◌, is_some, Str, str_eq, is_empty,
}
use golang_auth_api.Exec.{pure, raise, ◌>>=◌, ◌>>◌}
use golang_auth_api.Model.Errors.{
  unauthorized, session_expired, internal_server_error, account_not_usable, token_generation_failed,
}
use golang_auth_api.Model.Rows.{Session, User, is_blocked}
use golang_auth_api.Cache.{Value, text, otp}
use golang_auth_api.Platform.{Env, Service, Reply, found, no_rows, failed, reply_of}
use golang_auth_api.Platform.Calls.{query, statement, cache_get, is_found}
use golang_auth_api.Database.Sessions.{get_refresh_session, revoke_session, rotate_refresh_session}
use golang_auth_api.Database.Users.{get_user_by_id}
use golang_auth_api.Auth.Session.{refresh_key, delete_session}
use golang_auth_api.Auth.Jwt.{TokenPair, hash_opaque_token, rotate_session_tokens}
use golang_auth_api.Services.Common.{role_name, text_of, attempt, or_raise}

pub record RefreshTokenResult : Type 0 where
  pub access_token : Str
  pub refresh_token : Str

-- The string of a stored value.
abbrev pub string_of : Value → Str
string_of (text s) = s
string_of (otp m) = []

module _ {C : Type 0} (env : Env C) where
  unfoldable pub revoke_compromised_session : Str → ℕ → Service C (Reply Unit)
  revoke_compromised_session session_id session_pg = do
    delete_session env session_id
    statement env (revoke_session session_pg)

  module _ (session_id user_id raw_refresh_token : Str) (session_pg : ℕ) where
    abbrev pub supplied_hash : Str
    supplied_hash = hash_opaque_token env raw_refresh_token

    unfoldable pub save_rotation : Option TokenPair → Service C RefreshTokenResult
    save_rotation none = raise token_generation_failed
    save_rotation (some tokens) = do
      rotated ← statement env (
          rotate_refresh_session (hash_opaque_token env tokens.refresh_token) tokens.refresh_exp
            session_pg)
      if is_found rotated
          then pure
              (record { access_token = tokens.access_token; refresh_token = tokens.refresh_token })
          else raise token_generation_failed

    unfoldable pub rotate_for : Session → Reply User → Service C RefreshTokenResult
    unfolding save_rotation
    rotate_for session failed = raise internal_server_error
    rotate_for session no_rows = do
      revoke_compromised_session session_id session_pg
      raise unauthorized
    rotate_for session (found user) =
        if is_some user.deleted_at || is_blocked user.status
        then (do revoke_compromised_session session_id session_pg; raise account_not_usable)
        else (do
          tokens ← attempt (
              rotate_session_tokens env session_id (env.show_uuid session.user_id) user.username
                (role_name user.role) env.config.access_ttl env.config.refresh_ttl)
          save_rotation tokens)

    -- session.Revoked || session.UserID != userID || the hashes differ
    abbrev pub is_mismatched : Session → Bool
    is_mismatched session =
        session.revoked
        || (not (str_eq (env.show_uuid session.user_id) user_id)
            || not (str_eq (text_of session.refresh_token_hash) supplied_hash))

    unfoldable pub check_session : Reply Session → Service C RefreshTokenResult
    unfolding rotate_for
    check_session failed = raise internal_server_error
    check_session no_rows = raise session_expired
    check_session (found session) =
        if is_mismatched session
        then (do revoke_compromised_session session_id session_pg; raise session_expired)
        else (do
          user ← query env (λ t db. reply_of (get_user_by_id session.user_id db))
          rotate_for session user)

    unfoldable pub check_stored : Reply Value → Service C RefreshTokenResult
    unfolding check_session
    check_stored failed = raise internal_server_error
    check_stored no_rows = raise session_expired
    check_stored (found stored) =
        if not (str_eq (string_of stored) supplied_hash)
        then (do revoke_compromised_session session_id session_pg; raise session_expired)
        else (do
          session ← query env (λ t db. reply_of (get_refresh_session session_pg db))
          check_session session)

  -- RefreshToken
  unfoldable pub refresh_token : Str → Str → Str → Service C RefreshTokenResult
  unfolding check_stored
  refresh_token session_id user_id raw_refresh_token =
      if is_empty session_id || (is_empty user_id || is_empty raw_refresh_token)
      then raise unauthorized
      else (do
        session_pg ← or_raise (env.parse_uuid session_id) unauthorized
        stored ← cache_get env (refresh_key session_id)
        check_stored session_id user_id raw_refresh_token session_pg stored)

  -- Logout
  unfoldable pub logout : Str → Service C Unit
  logout session_id = if is_empty session_id then raise unauthorized else (do
    session_pg ← or_raise (env.parse_uuid session_id) unauthorized
    delete_session env session_id
    revoked ← statement env (revoke_session session_pg)
    if is_found revoked then pure tt else raise internal_server_error)
