-- ===== src/Services/Passkeys/Soundness.antt =====
-- Whom a login with a passkey lets in.
use mathlib.Core.Path.{subst}
use mathlib.Core.Option.{some-injective}
use golang_auth_api.Prelude.{
  ◌≡◌, ◌∙◌, ap, Bool-cases, inl, inr, refl, sym, ℕ, true, false, not, ◌==◌, Bool, if◌then◌else◌,
  Option, none, some, List, length, Str,
}
use golang_auth_api.Exec.{
  ok, bind-eq-ok, require-eq-ok, or_raise-eq-ok, raise-ne-ok, pure-eq-ok, pure-bind, ◌>>=◌,
  or_raise,
}
use golang_auth_api.Model.Errors.{ErrorDetail, internal_server_error, passkey_challenge_failed}
use golang_auth_api.Model.Rows.{User, WebAuthnCredential, Database}
use golang_auth_api.Platform.{Env, World, Service, failed, reply_of}
use golang_auth_api.Platform.Calls.{cache_get}
use golang_auth_api.Platform.CallLaws.{query-bind}
use golang_auth_api.Database.Users.{get_user_by_id}
use golang_auth_api.Database.Passkeys.{get_webauthn_credentials_by_user_id}
use golang_auth_api.Services.Common.{RequestMeta, must_find}
use golang_auth_api.Services.Login.{LoginResult}
use golang_auth_api.Services.Passkeys.{
  WebAuthn, WebAuthnUser, with_rows, login_key, uuid_of, user_of, get_webauthn_session,
  load_webauthn_user, decode_credentials,
}
use golang_auth_api.Services.Passkeys.Login.{
  is_unusable_user, accept_assertion, resolve_user, finish_passkey_login,
}

-- The account of the handle, whose own credentials the assertion was checked against.
pub record IsAsserted (library : WebAuthn) (session handle request : Str) (db : Database)
    : Type 0 where
  pub size : (length handle == 16) ≡ true
  pub user : User
  pub of_handle : get_user_by_id (uuid_of 0 handle) db ≡ some user
  pub usable : not (is_unusable_user user) ≡ true
  pub creds : List Str
  pub of_user :
      decode_credentials library (get_webauthn_credentials_by_user_id (uuid_of 0 handle) db)
      ≡ some creds
  pub cred : Str
  pub asserted :
      library.check_assertion (user_of (uuid_of 0 handle) user.username creds) session request
      ≡ some cred

with_rows-creds :
    (user_pg : ℕ) (username : Str) (rows : List WebAuthnCredential) (d : Option (List Str))
    {wa : WebAuthnUser × List WebAuthnCredential}
    → with_rows user_pg username rows d ≡ some wa
    → (creds : List Str) × ((d ≡ some creds) × (wa.0 ≡ user_of user_pg username creds))
with_rows-creds user_pg username rows none e = cc
with_rows-creds user_pg username rows (some creds) {wa} e = (
  creds,
  (refl, ap (λ x. x.0) (sym (some-injective (user_of user_pg username creds, rows) wa e))),
)

module _ {C : Type 0} (env : Env C) (library : WebAuthn) where
  -- What loadWebAuthnUser returns is built from the rows of the user.
  pub load-creds :
      (user_pg : ℕ) (username : Str) (w : World C)
      {o : Option (WebAuthnUser × List WebAuthnCredential)}
      {wa : WebAuthnUser × List WebAuthnCredential}
      → (load_webauthn_user env library user_pg username w).0 ≡ ok o
      → o ≡ some wa
      → (creds : List Str) × ((decode_credentials library
              (get_webauthn_credentials_by_user_id user_pg w.db)
            ≡ some creds)
          × (wa.0 ≡ user_of user_pg username creds))
  unfolding load_webauthn_user
  load-creds user_pg username w h e =
      let rows = get_webauthn_credentials_by_user_id user_pg w.db in
      let built = pure-eq-ok _ _ (rw (query-bind env _ _ w) at h) in
      elim (Bool-cases (env.db_fails w.calls)) [
        | inl down ↦ (let none_is = rw down at built in cc)
        | inr up ↦
            with_rows-creds user_pg username rows (decode_credentials library rows)
              (rw up at built ∙ e)
      ]

  module _ (meta : RequestMeta) (ceremony_id session handle request : Str) where
    -- From the user's row on.
    abbrev after_user : User → Service C LoginResult
    after_user user = do
      loaded_user ← load_webauthn_user env library (uuid_of 0 handle) user.username
      wa ← or_raise loaded_user internal_server_error
      cred ← or_raise (library.check_assertion wa.0 session request) passkey_challenge_failed
      accept_assertion env meta library ceremony_id user wa.1 cred

    accept-usable :
        (user : User) (rows : List WebAuthnCredential) (cred : Str) (w : World C) {r : LoginResult}
        → (accept_assertion env meta library ceremony_id user rows cred w).0 ≡ ok r
        → not (is_unusable_user user) ≡ true
    unfolding accept_assertion
    accept-usable user rows cred w h = (require-eq-ok _ _ _ w h).0

    after_user-IsAsserted :
        (db : Database) (o : Option User) (down : Bool) (w : World C) {r : LoginResult}
        → w.db ≡ db
        → (length handle == 16) ≡ true
        → get_user_by_id (uuid_of 0 handle) db ≡ o
        → ((must_find (if down then failed else reply_of o) >>= after_user) w).0 ≡ ok r
        → IsAsserted library session handle request db
    after_user-IsAsserted db o true w same size row h =
        let (_, bad, _) = bind-eq-ok _ _ w h in absurd (raise-ne-ok internal_server_error w bad)
    after_user-IsAsserted db none false w same size row h =
        let (_, bad, _) = bind-eq-ok _ _ w h in absurd (raise-ne-ok internal_server_error w bad)
    after_user-IsAsserted db (some user) false w same size row h =
        let (o, got, h1) = bind-eq-ok _ _ w (rw pure-bind at h) in
        let (wa, is_wa, h2) = or_raise-eq-ok o _ _ _ h1 in
        let (cred, is_cred, h3) = or_raise-eq-ok _ _ _ _ h2 in
        let (creds, facts) = load-creds (uuid_of 0 handle) user.username w got is_wa in
        record {
          size = size;
          user = user;
          of_handle = row;
          usable = accept-usable user wa.1 cred _ h3;
          creds = creds;
          of_user =
              subst
                (λ d.
                  decode_credentials library
                    (get_webauthn_credentials_by_user_id (uuid_of 0 handle) d)
                  ≡ some creds)
                same facts.0;
          cred = cred;
          asserted =
              subst (λ u. library.check_assertion u session request ≡ some cred) facts.1 is_cred;
        }

    resolve_user-IsAsserted :
        (w : World C) {r : LoginResult}
        → (resolve_user env meta library ceremony_id session handle request w).0 ≡ ok r
        → IsAsserted library session handle request w.db
    unfolding resolve_user
    resolve_user-IsAsserted w h =
        let (size, h1) = require-eq-ok _ _ _ w h in
        after_user-IsAsserted w.db _ (env.db_fails w.calls) _ refl size refl
          (rw (query-bind env _ _ w) at h1)

-- The ceremony of a login: its session was in Redis, and the request named the handle.
pub record IsPasskeyLogin {C : Type 0} (env : Env C) (web_authn : Option WebAuthn)
    (ceremony_id request : Str) (w : World C) : Type 0 where
  pub library : WebAuthn
  pub configured : web_authn ≡ some library
  pub session : Str
  pub stored :
      (get_webauthn_session env {E = ErrorDetail} (login_key ceremony_id) w).0 ≡ ok (some session)
  pub handles : Str × Str
  pub named : library.user_handle session request ≡ some handles
  pub asserted : IsAsserted library session handles.1 request w.db

-- The lookup of a session leaves the database.
session_db :
    {C : Type 0} (env : Env C) (key : Str) (w : World C)
    → (get_webauthn_session env {E = ErrorDetail} key w).1.db ≡ w.db
unfolding get_webauthn_session cache_get ◌>>=◌
session_db env key w = refl

-- FinishPasskeyLogin succeeds only where passkeys are configured and Redis held the session of the
-- ceremony, and where the library accepted the assertion against the credentials of the very account that
-- the user handle names, which has 16 bytes; the account is neither deleted nor banned or disabled.
pub finish_passkey_login-IsPasskeyLogin :
    {C : Type 0} (env : Env C) (meta : RequestMeta) (web_authn : Option WebAuthn)
    (ceremony_id request : Str) (w : World C) {r : LoginResult}
    → (finish_passkey_login env meta web_authn ceremony_id request w).0 ≡ ok r
    → IsPasskeyLogin env web_authn ceremony_id request w
unfolding finish_passkey_login
finish_passkey_login-IsPasskeyLogin env meta web_authn ceremony_id request w h =
    let (library, configured, h1) = or_raise-eq-ok web_authn _ _ w h in
    let (stored, got, h2) = bind-eq-ok _ _ w h1 in
    let (session, is_session, h3) = or_raise-eq-ok stored _ _ _ h2 in
    let (handles, named, h4) = or_raise-eq-ok _ _ _ _ h3 in
    record {
      library = library;
      configured = configured;
      session = session;
      stored = rw is_session at got;
      handles = handles;
      named = named;
      asserted =
          subst (IsAsserted library session handles.1 request)
            (session_db env (login_key ceremony_id) w)
            (resolve_user-IsAsserted env library meta ceremony_id session handles.1 request _ h4);
    }
