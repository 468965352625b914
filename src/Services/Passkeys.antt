-- ===== src/Services/Passkeys.antt =====
-- internal/services/passkey_service.go and internal/auth/webauthn_session.go. The ceremonies are those
-- of the WebAuthn library, the parameter `WebAuthn`; what it passes as JSON is kept as text.
pub mod Owner
pub mod Handle
pub mod Login
pub mod Registration
pub mod Soundness
use Prim.Native.Nat.{◌%◌}
use golang_auth_api.Prelude.{
  ℕ, zero, suc, ◌+◌, ◌*◌, ◌/◌, Bool, true, false, not, ◌==◌, Option, none, some, List, [], ◌∷◌,
  ◌++◌, if◌then◌else◌, map, any, find, length, Str, codes, str_eq, is_empty, trim_space,
}
use golang_auth_api.Exec.{Exec, pure, raise, ◌>>=◌, ◌>>◌}
use golang_auth_api.Model.Errors.{
  unauthorized, internal_server_error, account_not_usable, invalid_or_expired_token,
  invalid_payload, passkey_not_configured, passkey_challenge_failed, passkey_already_registered,
  passkey_not_found,
}
use golang_auth_api.Model.Rows.{User, AuditAction, AuditLog, WebAuthnCredential, is_blocked}
use golang_auth_api.Cache.{Value, text, otp}
use golang_auth_api.Platform.{Env, World, Service, Reply, found, no_rows, failed, reply_of}
use golang_auth_api.Platform.Calls.{
  draw, query, statement, cache_get, cache_set, cache_del, is_found,
}
use golang_auth_api.Database.Sessions.{text_or_null}
use golang_auth_api.Database.Users.{get_user_by_id, is_none}
use golang_auth_api.Database.Logs.{create_audit_log}
use golang_auth_api.Database.Passkeys.{
  create_webauthn_credential, get_webauthn_credentials_by_user_id, rename_webauthn_credential,
  delete_webauthn_credential, update_webauthn_credential,
}
use golang_auth_api.Auth.Jwt.{random_token}
use golang_auth_api.Services.Common.{RequestMeta, text_of, attempt, require, or_raise}
use golang_auth_api.Services.Login.{LoginResult, issue_login_session}
use golang_auth_api.Services.Mfa.{verify_current_password}

-- auth.WebAuthnUser; a credential is its JSON, decoded.
pub record WebAuthnUser : Type 0 where
  pub id : Str
  pub username : Str
  pub display_name : Str
  pub credentials : List Str

-- github.com/go-webauthn/webauthn: the options and the session of a ceremony's begin, and the credential
-- at its end. FinishPasskeyLogin calls its handler with the raw identifier and the user handle of the
-- request, and then checks the assertion against the user that the handler returns.
pub record WebAuthn : Type 0 where
  pub begin_registration : WebAuthnUser → List Str → ℕ → Option (Str × Str)
  pub finish_registration : WebAuthnUser → Str → Str → Option Str
  pub begin_discoverable_login : ℕ → Option (Str × Str)
  pub user_handle : Str → Str → Option (Str × Str)
  pub check_assertion : WebAuthnUser → Str → Str → Option Str
  pub descriptor : Str → Str
  pub credential_id : Str → Str
  -- encoding/json of a credential
  pub marshal : Str → Option Str
  pub unmarshal : Str → Option Str

-- webauthnSessionTTL, in seconds
abbrev pub webauthn_session_ttl : ℕ
webauthn_session_ttl = 300

abbrev pub registration_key : Str → Str
registration_key user_id = codes "webauthn_reg:" ++ user_id

abbrev pub login_key : Str → Str
login_key ceremony_id = codes "webauthn_login:" ++ ceremony_id

-- An identifier is its 128-bit value, so the byte array UUID.Bytes is that of its 16 digits to the base
-- 256, the highest first; these are the n low ones.
unfoldable pub bytes_of : ℕ → ℕ → Str
bytes_of zero id = []
bytes_of (suc n) id = bytes_of n (id / 256) ++ (id % 256) ∷ []

-- `copy(uid.Bytes[:], userHandle)`, after the bytes read so far
unfoldable pub uuid_of : ℕ → Str → ℕ
uuid_of acc [] = acc
uuid_of acc (b ∷ bs) = uuid_of (acc * 256 + b) bs

-- json.Unmarshal of every row; one that fails ends the loop.
unfoldable pub decode_credentials : WebAuthn → List WebAuthnCredential → Option (List Str)
decode_credentials library [] = some []
decode_credentials library (row ∷ rows) =
    let rest = decode_credentials library rows in
    elim (library.unmarshal row.credential) [
      | none ↦ none
      | some cred ↦ elim rest [ none ↦ none | some creds ↦ some (cred ∷ creds) ]
    ]

abbrev pub text_value : Reply Value → Option Str
text_value (found (text s)) = some s
text_value (found (otp meta)) = none
text_value no_rows = none
text_value failed = none

abbrev pub rows_of : Reply (List WebAuthnCredential) → Option (List WebAuthnCredential)
rows_of (found rows) = some rows
rows_of no_rows = none
rows_of failed = none

abbrev pub user_of : ℕ → Str → List Str → WebAuthnUser
user_of user_pg username creds = record {
  id = bytes_of 16 user_pg;
  username = username;
  display_name = username;
  credentials = creds;
}

abbrev pub with_rows :
    ℕ
    → Str
    → List WebAuthnCredential
    → Option (List Str)
    → Option (WebAuthnUser × List WebAuthnCredential)
with_rows user_pg username rows none = none
with_rows user_pg username rows (some creds) = some (user_of user_pg username creds, rows)

abbrev pub loaded :
    WebAuthn
    → ℕ
    → Str
    → Option (List WebAuthnCredential)
    → Option (WebAuthnUser × List WebAuthnCredential)
loaded library user_pg username none = none
loaded library user_pg username (some rows) =
    with_rows user_pg username rows (decode_credentials library rows)

module _ {C : Type 0} (env : Env C) where
  -- saveWebAuthnSession and getWebAuthnSession
  unfoldable pub save_webauthn_session : {E : Type 0} → Str → Str → Exec (World C) E Bool
  save_webauthn_session key session = cache_set env key (text session) webauthn_session_ttl

  unfoldable pub get_webauthn_session : {E : Type 0} → Str → Exec (World C) E (Option Str)
  get_webauthn_session key = do reply ← cache_get env key; pure (text_value reply)

  -- userOwnsPasskey: a failed query is no.
  unfoldable pub user_owns_passkey : ℕ → ℕ → Service C Bool
  user_owns_passkey user_pg passkey_pg = do
    reply ← query env (λ t db. found (get_webauthn_credentials_by_user_id user_pg db))
    pure (elim (rows_of reply) [ none ↦ false | some rows ↦ any (λ c. c.id == passkey_pg) rows ])

  -- RenamePasskey
  unfoldable pub rename_passkey : Str → Str → Str → Service C Unit
  rename_passkey user_id passkey_id name = do
    user_pg ← or_raise (env.parse_uuid user_id) unauthorized
    passkey_pg ← or_raise (env.parse_uuid passkey_id) passkey_not_found
    require (not (is_empty (trim_space name))) invalid_payload
    owns ← user_owns_passkey user_pg passkey_pg
    require owns passkey_not_found
    renamed ← statement env (rename_webauthn_credential (trim_space name) passkey_pg user_pg)
    require (is_found renamed) internal_server_error

  abbrev pub passkey_audit : ℕ → Option Str → Str → AuditLog
  passkey_audit user_pg username reason = record {
    actor_id = none;
    actor_username = none;
    target_user_id = some user_pg;
    target_username = username;
    target_email = none;
    action = AuditAction.mfa_change;
    reason = some reason;
    ip = none;
    user_agent = none;
  }

  -- DeletePasskey
  unfoldable pub delete_passkey : Str → Str → Str → Service C Unit
  delete_passkey user_id current passkey_id = do
    user_pg ← or_raise (env.parse_uuid user_id) unauthorized
    passkey_pg ← or_raise (env.parse_uuid passkey_id) passkey_not_found
    verify_current_password env user_pg current
    owns ← user_owns_passkey user_pg passkey_pg
    require owns passkey_not_found
    deleted ← statement env (delete_webauthn_credential passkey_pg user_pg)
    require (is_found deleted) internal_server_error
    statement env (create_audit_log (passkey_audit user_pg none (codes "Passkey removed")))
    pure tt

  -- ListPasskeys: the rows that are turned into JSON
  unfoldable pub list_passkeys : Str → Service C (List WebAuthnCredential)
  list_passkeys user_id = do
    user_pg ← or_raise (env.parse_uuid user_id) unauthorized
    reply ← query env (λ t db. found (get_webauthn_credentials_by_user_id user_pg db))
    or_raise (rows_of reply) internal_server_error

  module _ (library : WebAuthn) where
    -- loadWebAuthnUser: the user and the rows of the credentials
    unfoldable pub load_webauthn_user :
        ℕ → Str → Service C (Option (WebAuthnUser × List WebAuthnCredential))
    load_webauthn_user user_pg username = do
      reply ← query env (λ t db. found (get_webauthn_credentials_by_user_id user_pg db))
      pure (loaded library user_pg username (rows_of reply))
