-- ===== src/Services/Passkeys/Login.antt =====
-- internal/services/passkey_service.go: the end of a login with a passkey.
use golang_auth_api.Prelude.{
  ◌==◌, ◌||◌, not, Bool, Option, none, some, List, is_some, length, find, Str, str_eq,
}
use golang_auth_api.Exec.{pure, ◌>>=◌, ◌>>◌}
use golang_auth_api.Model.Errors.{
  internal_server_error, account_not_usable, invalid_or_expired_token, passkey_not_configured,
  passkey_challenge_failed,
}
use golang_auth_api.Model.Rows.{User, WebAuthnCredential, is_blocked}
use golang_auth_api.Platform.{Env, Service, reply_of}
use golang_auth_api.Platform.Calls.{query, statement, cache_del}
use golang_auth_api.Database.Users.{get_user_by_id}
use golang_auth_api.Database.Passkeys.{update_webauthn_credential}
use golang_auth_api.Services.Common.{RequestMeta, must_find, require, or_raise}
use golang_auth_api.Services.Login.{LoginResult, issue_login_session}
use golang_auth_api.Services.Passkeys.{
  WebAuthn, login_key, uuid_of, get_webauthn_session, load_webauthn_user,
}

-- The account of the row is deleted, banned or disabled.
abbrev pub is_unusable_user : User → Bool
is_unusable_user user = is_some user.deleted_at || is_blocked user.status

module _ {C : Type 0} (env : Env C) where
  -- The row of the credential, if there is one, takes its new state; a failure is ignored.
  unfoldable pub save_credential : Str → Option WebAuthnCredential → Service C Unit
  save_credential json none = pure tt
  save_credential json (some row) = do
    statement env (update_webauthn_credential json row.id)
    pure tt

  module _ (meta : RequestMeta) where
    -- After the assertion has been checked.
    unfoldable pub accept_assertion :
        WebAuthn → Str → User → List WebAuthnCredential → Str → Service C LoginResult
    unfolding save_credential
    accept_assertion library ceremony_id user rows cred = do
      require (not (is_unusable_user user)) account_not_usable
      json ← or_raise (library.marshal cred) internal_server_error
      save_credential json (find (λ c. str_eq c.credential_id (library.credential_id cred)) rows)
      cache_del env (login_key ceremony_id)
      issue_login_session env meta user.id none user.username user.role

    -- The handler, and the check of the assertion against the user that it returns.
    unfoldable pub resolve_user : WebAuthn → Str → Str → Str → Str → Service C LoginResult
    unfolding accept_assertion
    resolve_user library ceremony_id session handle request = do
      require (length handle == 16) passkey_challenge_failed
      reply ← query env (λ t db. reply_of (get_user_by_id (uuid_of 0 handle) db))
      user ← must_find reply
      loaded_user ← load_webauthn_user env library (uuid_of 0 handle) user.username
      wa ← or_raise loaded_user internal_server_error
      cred ← or_raise (library.check_assertion wa.0 session request) passkey_challenge_failed
      accept_assertion library ceremony_id user wa.1 cred

    -- FinishPasskeyLogin
    unfoldable pub finish_passkey_login : Option WebAuthn → Str → Str → Service C LoginResult
    unfolding resolve_user
    finish_passkey_login web_authn ceremony_id request = do
      library ← or_raise web_authn passkey_not_configured
      stored ← get_webauthn_session env (login_key ceremony_id)
      session ← or_raise stored invalid_or_expired_token
      handles ← or_raise (library.user_handle session request) passkey_challenge_failed
      resolve_user library ceremony_id session handles.1 request
