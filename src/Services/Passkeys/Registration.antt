-- ===== src/Services/Passkeys/Registration.antt =====
-- internal/services/passkey_service.go: the registration of a passkey, and the begin of a login.
use golang_auth_api.Prelude.{Bool, Option, map, Str, codes, trim_space}
use golang_auth_api.Exec.{pure, raise, ◌>>=◌, ◌>>◌}
use golang_auth_api.Model.Errors.{
  unauthorized, internal_server_error, invalid_or_expired_token, passkey_not_configured,
  passkey_challenge_failed, passkey_already_registered,
}
use golang_auth_api.Platform.{Env, Service, Reply, found, no_rows, failed}
use golang_auth_api.Platform.Calls.{draw, statement, cache_del}
use golang_auth_api.Database.Sessions.{text_or_null}
use golang_auth_api.Database.Logs.{create_audit_log}
use golang_auth_api.Database.Passkeys.{create_webauthn_credential}
use golang_auth_api.Auth.Jwt.{random_token}
use golang_auth_api.Services.Common.{attempt, require, or_raise}
use golang_auth_api.Services.Passkeys.{
  WebAuthn, registration_key, login_key, save_webauthn_session, get_webauthn_session,
  load_webauthn_user, passkey_audit,
}

module _ {C : Type 0} (env : Env C) where
  -- The webAuthn of the server is nil where passkeys are not configured.
  module _ (web_authn : Option WebAuthn) where
    -- BeginPasskeyRegistration
    unfoldable pub begin_passkey_registration : Str → Str → Service C Str
    begin_passkey_registration user_id username = do
      library ← or_raise web_authn passkey_not_configured
      user_pg ← or_raise (env.parse_uuid user_id) unauthorized
      loaded_user ← load_webauthn_user env library user_pg username
      wa ← or_raise loaded_user internal_server_error
      begun ← draw env (library.begin_registration wa.0 (map library.descriptor wa.0.credentials))
      ceremony ← or_raise begun internal_server_error
      saved ← save_webauthn_session env (registration_key user_id) ceremony.1
      require saved internal_server_error
      pure ceremony.0

    -- `err != nil` of CreateWebAuthnCredential: a unique violation has an answer of its own.
    unfoldable pub require_created : Reply Bool → Service C Unit
    require_created (found created) = require created passkey_already_registered
    require_created no_rows = raise internal_server_error
    require_created failed = raise internal_server_error

    -- FinishPasskeyRegistration
    unfoldable pub finish_passkey_registration : Str → Str → Str → Str → Service C Unit
    unfolding require_created
    finish_passkey_registration user_id username name request = do
      library ← or_raise web_authn passkey_not_configured
      user_pg ← or_raise (env.parse_uuid user_id) unauthorized
      stored ← get_webauthn_session env (registration_key user_id)
      session ← or_raise stored invalid_or_expired_token
      loaded_user ← load_webauthn_user env library user_pg username
      wa ← or_raise loaded_user internal_server_error
      cred ← or_raise (library.finish_registration wa.0 session request) passkey_challenge_failed
      json ← or_raise (library.marshal cred) internal_server_error
      id ← draw env env.random_uuid
      created ← statement env (
          create_webauthn_credential id user_pg (library.credential_id cred)
            (text_or_null (trim_space name)) json)
      require_created created
      cache_del env (registration_key user_id)
      statement env (
          create_audit_log
            (passkey_audit env user_pg (text_or_null username) (codes "Passkey registered")))
      pure tt

    -- BeginPasskeyLogin: the identifier of the ceremony and its options
    unfoldable pub begin_passkey_login : Service C (Str × Str)
    begin_passkey_login = do
      library ← or_raise web_authn passkey_not_configured
      begun ← draw env library.begin_discoverable_login
      ceremony ← or_raise begun internal_server_error
      drawn ← attempt (random_token env 32)
      ceremony_id ← or_raise drawn internal_server_error
      saved ← save_webauthn_session env (login_key ceremony_id) ceremony.1
      require saved internal_server_error
      pure (ceremony_id, ceremony.0)
