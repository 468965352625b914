-- ===== src/Tests/Passkeys.antt =====
-- Passkeys and listings at concrete inputs.
use golang_auth_api.Prelude.{
  ◌≡◌, refl, false, to_lower, Option, none, some, List, [], ◌∷◌, ◌++◌, any, find, keep,
  update_where, Str, codes, str_eq, trim_space, is_empty,
}
use golang_auth_api.Prelude.Integers.{pos, int32}
use golang_auth_api.Exec.{ok, ◌>>=◌}
use golang_auth_api.Model.Rows.{WebAuthnCredential, is_blocked}
use golang_auth_api.Cache.{Entry, text, entry_get}
use golang_auth_api.Platform.{World}
use golang_auth_api.Platform.Calls.{now, draw, query, statement, cache_get, cache_set, cache_del}
use golang_auth_api.Database.Users.{get_user_by_id, touch_user_last_login}
use golang_auth_api.Database.Sessions.{create_refresh_session}
use golang_auth_api.Database.Logs.{insert_login}
use golang_auth_api.Database.Passkeys.{
  get_webauthn_credentials_by_user_id, update_webauthn_credential,
}
use golang_auth_api.Auth.Jwt.{
  generate_user_tokens, generate_access_jwt, generate_and_store_refresh, hash_opaque_token,
  random_token,
}
use golang_auth_api.Auth.Session.{generate_session}
use golang_auth_api.Services.Common.{attempt, role_name, record_login_attempt}
use golang_auth_api.Services.Login.{LoginResult, issue_login_session, save_session, after_save}
use golang_auth_api.Services.Passkeys.{
  WebAuthn, WebAuthnUser, user_of, uuid_of, decode_credentials, load_webauthn_user,
  get_webauthn_session, delete_passkey,
}
use golang_auth_api.Services.Passkeys.Login.{finish_passkey_login}
use golang_auth_api.Services.Passkeys.Owner.{DeleteOutcome, delete_passkey-DeleteOutcome}
use golang_auth_api.Services.Passkeys.Soundness.{
  IsPasskeyLogin, finish_passkey_login-IsPasskeyLogin,
}
use golang_auth_api.Database.Listing.{list_users, count_users}
use golang_auth_api.Services.Admin.{parse_user_status}
use golang_auth_api.Services.Admin.Listing.{AdminListUsersParams, list_users_page}
use golang_auth_api.Services.Admin.Listing.Pages.{IsPage, list_users_page-IsPage}
use golang_auth_api.Tests.Data.{test_env, test_meta, ann, plain_world, zeros}

-- An authenticator that answers the user handle of account 1, and that signs for its first credential.
abbrev first_credential : List Str → Option Str
first_credential [] = none
first_credential (c ∷ cs) = some c

abbrev test_webauthn : WebAuthn
test_webauthn = record {
  begin_registration = λ user excluded i. some (codes "options", codes "session");
  finish_registration = λ user session request. some request;
  begin_discoverable_login = λ i. some (codes "options", codes "session");
  user_handle = λ session request. some (codes "raw", zeros 15 ++ 1 ∷ []);
  check_assertion = λ user session request. first_credential user.credentials;
  descriptor = λ cred. cred;
  credential_id = λ cred. cred;
  marshal = λ cred. some cred;
  unmarshal = λ json. some json;
}

abbrev ann_passkey : WebAuthnCredential
ann_passkey = record {
  id = 11;
  user_id = 1;
  credential_id = codes "cred";
  name = none;
  credential = codes "cred";
  created_at = 900;
  last_used_at = none;
}

-- The account with a passkey, and a ceremony that has begun.
abbrev passkey_world : World (List Entry)
passkey_world = record {
  db = record plain_world.db { webauthn_credentials = ann_passkey ∷ [] };
  cache =
      record { key = codes "webauthn_login:c1"; value = text (codes "session"); expires = 1300 }
      ∷ [];
  outbox = [];
  calls = 0;
}

delete_passkey_example :
    DeleteOutcome test_env
      (codes "u1")
      (codes "correct horse")
      (codes "s1")
      passkey_world
      (delete_passkey test_env (codes "u1") (codes "correct horse") (codes "s1") passkey_world)
delete_passkey_example =
    delete_passkey-DeleteOutcome test_env (codes "u1") (codes "correct horse") (codes "s1")
      passkey_world

abbrev ann_webauthn : WebAuthnUser × List WebAuthnCredential
ann_webauthn = (user_of 1 (codes "ann") (codes "cred" ∷ []), ann_passkey ∷ [])

abbrev ann_logged_in : LoginResult
ann_logged_in = record {
  access_token = codes "jwt";
  refresh_token = codes "rnd";
  user_id = codes "u1";
  username = codes "ann";
  mfa_required = false;
  mfa_challenge_token = [];
  mfa_methods = [];
}

finish_passkey_login_test :
    (finish_passkey_login test_env test_meta (some test_webauthn) (codes "c1") [] passkey_world).0
    ≡ ok ann_logged_in
unfolding finish_passkey_login ◌>>=◌ get_webauthn_session cache_get entry_get str_eq query
    get_user_by_id find uuid_of load_webauthn_user decode_credentials
    get_webauthn_credentials_by_user_id keep is_blocked statement cache_del issue_login_session
    attempt generate_access_jwt generate_and_store_refresh generate_user_tokens hash_opaque_token
    random_token generate_session insert_login update_webauthn_credential create_refresh_session
    touch_user_last_login cache_set draw now any update_where record_login_attempt role_name
    after_save save_session
finish_passkey_login_test = refl

finish_passkey_login_example :
    IsPasskeyLogin test_env (some test_webauthn) (codes "c1") [] passkey_world
finish_passkey_login_example =
    finish_passkey_login-IsPasskeyLogin test_env test_meta (some test_webauthn) (codes "c1") []
      passkey_world finish_passkey_login_test

-- Active accounts with "AN" in the name, at most 25 of them, as 500 is no limit.
abbrev ann_params : AdminListUsersParams
ann_params = record {
  search = codes " AN ";
  status = codes "active";
  role = [];
  limit = pos 500;
  offset = pos 0;
}

list_users_page_test :
    (list_users_page test_env ann_params plain_world).0 ≡ ok (record { rows = ann ∷ []; total = 1 })
unfolding list_users_page ◌>>=◌ is_empty trim_space parse_user_status str_eq to_lower query
    list_users int32 count_users keep
list_users_page_test = refl

list_users_page_example : IsPage ann_params plain_world.db (record { rows = ann ∷ []; total = 1 })
list_users_page_example =
    list_users_page-IsPage test_env ann_params plain_world list_users_page_test
