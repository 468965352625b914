-- ===== src/Services/Passwords.antt =====
-- internal/services/password_reset_service.go and change_password_service.go, with the transactions
-- of internal/db/postgres/password_resets.go and change_password.go
pub mod Reset
pub mod Outcome
use golang_auth_api.Prelude.{
  ℕ, ◌+◌, Bool, true, false, not, ◌||◌, ltb, Option, none, some, List, [], ◌∷◌, if◌then◌else◌,
  is_some, Str, codes, str_eq, is_empty, trim_space, to_lower,
}
use golang_auth_api.Exec.{Exec, pure, raise, ◌>>=◌, ◌>>◌}
use golang_auth_api.Model.Errors.{
  unauthorized, internal_server_error, account_not_usable, invalid_credentials,
  invalid_email_format, invalid_payload, invalid_or_expired_token, invalid_password_format,
  new_password_matches_current,
}
use golang_auth_api.Model.Rows.{ResetSource, PasswordReset, is_blocked}
use golang_auth_api.Platform.{Env, World, Service, Reply, found, no_rows, failed, reply_of}
use golang_auth_api.Platform.Calls.{must, now, draw, query, statement, with_tx, send_mail, is_found}
use golang_auth_api.Database.Identities.{
  EmailAuth, get_email_auth_by_email, get_email_auth_by_user_id, update_password_hash,
}
use golang_auth_api.Database.Sessions.{
  list_active_session_ids, revoke_all_user_sessions, revoke_all_other_user_sessions,
}
use golang_auth_api.Database.Resets.{
  get_active_password_reset, get_latest_password_reset_for_user, create_password_reset,
  mark_password_reset_used,
}
use golang_auth_api.Auth.Validations.{is_valid_email, is_valid_password}
use golang_auth_api.Auth.Session.{delete_session}
use golang_auth_api.Auth.Jwt.{hash_opaque_token, random_token}
use golang_auth_api.Auth.Password.{verify_password_phc, hash_password_phc}
use golang_auth_api.Services.Common.{attempt, require, or_raise}
use golang_auth_api.Services.Login.{normalized, stored_hash}

-- parsePasswordResetSource
unfoldable pub parse_password_reset_source : Str → Option ResetSource
parse_password_reset_source source =
    let s = to_lower (trim_space source) in
    if is_empty s || str_eq s (codes "web")
    then some ResetSource.web
    else if str_eq s (codes "mobile")
    then some ResetSource.mobile
    else none

-- const regenerateWindow = 1 * time.Minute
abbrev pub regenerate_window : ℕ
regenerate_window = 60

-- The account can be served: neither deleted nor banned or disabled.
abbrev pub is_unusable : EmailAuth → Bool
is_unusable identity = is_some identity.deleted_at || is_blocked identity.status

-- A list that a failed query leaves empty.
abbrev pub ids_of : Reply (List ℕ) → List ℕ
ids_of (found ids) = ids
ids_of no_rows = []
ids_of failed = []

module _ {C : Type 0} (env : Env C) where
  -- The loop of DeleteSession over the sessions, failures ignored.
  unfoldable pub delete_sessions : {E : Type 0} → List ℕ → Exec (World C) E Unit
  delete_sessions [] = pure tt
  delete_sessions (id ∷ ids) = do delete_session env (env.show_uuid id); delete_sessions ids

  -- As above, without the current session.
  unfoldable pub delete_other_sessions : {E : Type 0} → Str → List ℕ → Exec (World C) E Unit
  delete_other_sessions current [] = pure tt
  delete_other_sessions current (id ∷ ids) =
      let rest = delete_other_sessions current ids in
      if str_eq (env.show_uuid id) current
      then rest
      else (do delete_session env (env.show_uuid id); delete_other_sessions current ids)

  -- The lookup's error is logged and ignored; a missing row is the zero time, which is not valid.
  unfoldable pub is_too_early : Reply ℕ → Service C Bool
  is_too_early failed = pure false
  is_too_early no_rows = pure false
  is_too_early (found created) = do t ← now env; pure (ltb t (created + regenerate_window))

  unfoldable pub create_and_send : Str → ℕ → ResetSource → Service C Unit
  create_and_send email user_id source = do
    drawn ← attempt (random_token env 32)
    raw ← or_raise drawn internal_server_error
    t ← now env
    id ← draw env env.random_uuid
    created ← statement env (
        create_password_reset id user_id (hash_opaque_token env raw)
          (t + env.config.password_reset_ttl) source)
    require (is_found created) internal_server_error
    sent ← send_mail env raw email
    require sent internal_server_error

  unfoldable pub request_for : Str → ResetSource → Reply EmailAuth → Service C Unit
  unfolding create_and_send is_too_early
  request_for email source failed = raise internal_server_error
  request_for email source no_rows = pure tt
  request_for email source (found identity) = if is_unusable identity then pure tt else (do
    last ← query env (λ t db. reply_of (get_latest_password_reset_for_user identity.user_id db))
    early ← is_too_early last
    if early then pure tt else create_and_send email identity.user_id source)

  -- RequestPasswordReset
  unfoldable pub request_password_reset : Str → Str → Service C Unit
  unfolding request_for
  request_password_reset email source = do
    require (is_valid_email (normalized email)) invalid_email_format
    reset_source ← or_raise (parse_password_reset_source source) invalid_payload
    reply ← query env (λ t db. reply_of (get_email_auth_by_email (normalized email) db))
    request_for (normalized email) reset_source reply

  -- CompletePasswordReset
  unfoldable pub complete_password_reset : ℕ → ℕ → ℕ → Str → Service C Bool
  complete_password_reset reset_id identity_id user_id hash = with_tx env (do
    marked ← statement env (mark_password_reset_used reset_id)
    must marked
    updated ← statement env (update_password_hash hash identity_id)
    must updated
    revoked ← statement env (revoke_all_user_sessions user_id)
    must revoked)

  unfoldable pub reset_identity : Str → PasswordReset → Reply EmailAuth → Service C Unit
  reset_identity new_password reset failed = raise internal_server_error
  reset_identity new_password reset no_rows = raise internal_server_error
  reset_identity new_password reset (found identity) = do
    require (not (is_unusable identity)) account_not_usable
    hashed ← attempt (hash_password_phc env new_password)
    hash ← or_raise hashed internal_server_error
    ids ← query env (λ t db. found (list_active_session_ids reset.user_id db))
    done ← complete_password_reset reset.id identity.identity_id reset.user_id hash
    require done internal_server_error
    delete_sessions (ids_of ids)

  unfoldable pub reset_with : Str → Reply PasswordReset → Service C Unit
  unfolding reset_identity
  reset_with new_password failed = raise internal_server_error
  reset_with new_password no_rows = raise invalid_or_expired_token
  reset_with new_password (found reset) = do
    reply ← query env (λ t db. reply_of (get_email_auth_by_user_id reset.user_id db))
    reset_identity new_password reset reply

  -- ResetPassword
  unfoldable pub reset_password : Str → Str → Str → Service C Unit
  unfolding reset_with
  reset_password raw_token new_password confirm_password = do
    require (not (is_empty (trim_space raw_token))) invalid_or_expired_token
    require (is_valid_password new_password) invalid_password_format
    require (str_eq new_password confirm_password) invalid_password_format
    reply ← query env (λ t db.
        reply_of (get_active_password_reset (hash_opaque_token env (trim_space raw_token)) t db))
    reset_with new_password reply

  -- CompletePasswordChange
  unfoldable pub complete_password_change : ℕ → ℕ → ℕ → Str → Service C Bool
  complete_password_change identity_id user_id current hash = with_tx env (do
    updated ← statement env (update_password_hash hash identity_id)
    must updated
    revoked ← statement env (revoke_all_other_user_sessions user_id current)
    must revoked)

  -- `err == nil && sameAsCurrent`
  abbrev pub holds : Option Bool → Bool
  holds none = false
  holds (some b) = b

  unfoldable pub change_identity_password :
      Str → Str → Str → ℕ → ℕ → Reply EmailAuth → Service C Unit
  change_identity_password session_id current new user_pg session_pg failed =
      raise internal_server_error
  change_identity_password session_id current new user_pg session_pg no_rows = raise unauthorized
  change_identity_password session_id current new user_pg session_pg (found identity) = do
    require (not (is_unusable identity)) account_not_usable
    verified ←
        or_raise (verify_password_phc env current (stored_hash identity) true) internal_server_error
    require verified invalid_credentials
    require (not (holds (verify_password_phc env new (stored_hash identity) true)))
        new_password_matches_current
    hashed ← attempt (hash_password_phc env new)
    hash ← or_raise hashed internal_server_error
    ids ← query env (λ t db. found (list_active_session_ids user_pg db))
    done ← complete_password_change identity.identity_id user_pg session_pg hash
    require done internal_server_error
    delete_other_sessions session_id (ids_of ids)

  -- ChangePassword
  unfoldable pub change_password : Str → Str → Str → Str → Str → Service C Unit
  unfolding change_identity_password
  change_password user_id session_id current new confirm = do
    require (is_valid_password new) invalid_password_format
    require (str_eq new confirm) invalid_password_format
    user_pg ← or_raise (env.parse_uuid user_id) unauthorized
    session_pg ← or_raise (env.parse_uuid session_id) unauthorized
    reply ← query env (λ t db. reply_of (get_email_auth_by_user_id user_pg db))
    change_identity_password session_id current new user_pg session_pg reply
