-- ===== src/Tests/Signup.antt =====
-- Sign-up and single sign-on at concrete inputs.
use golang_auth_api.Prelude.{
  ◌≡◌, refl, [], true, false, any, find, keep, update_where, codes, str_eq, trim_space, to_lower,
  is_empty, all_bytes,
}
use golang_auth_api.Exec.{ok, ◌>>=◌}
use golang_auth_api.Model.Rows.{UserOrigin, ProviderName}
use golang_auth_api.Cache.{entry_get}
use golang_auth_api.Platform.Calls.{
  now, draw, query, statement, cache_get, cache_set, cache_del, send_mail, with_tx_value,
}
use golang_auth_api.Platform.Transactions.{AtomicValue}
use golang_auth_api.Database.Identities.{first_joined}
use golang_auth_api.Database.Sessions.{create_refresh_session}
use golang_auth_api.Database.Logs.{insert_login}
use golang_auth_api.Database.Accounts.{
  is_username_display, get_identity_by_provider, get_user_id_by_email, create_sso_user,
  create_sso_identity,
}
use golang_auth_api.Database.Users.{username_exists, touch_user_last_login}
use golang_auth_api.Auth.Validations.{is_valid_email, is_valid_verification_code, is_username_rest}
use golang_auth_api.Auth.OtpCode.{save_verification_code, get_verification_code}
use golang_auth_api.Auth.Jwt.{
  generate_temporary_jwt, generate_user_tokens, generate_access_jwt, generate_and_store_refresh,
  hash_opaque_token, random_token,
}
use golang_auth_api.Auth.Session.{generate_temporary_session, generate_session}
use golang_auth_api.Services.Common.{attempt, role_name, record_login_attempt}
use golang_auth_api.Services.Login.{LoginResult, issue_login_session, save_session, after_save}
use golang_auth_api.Services.Signup.{
  JoinContext, store_and_send, verify_email_code, create_email_user, complete_email_join,
}
use golang_auth_api.Services.Signup.Code.{
  IsProved, IsDelivered, verify_email_code-IsProved, store_and_send-IsDelivered,
}
use golang_auth_api.Services.Signup.Join.{IsJoined, create_email_user-AtomicValue}
use golang_auth_api.Services.Signup.Outcome.{JoinOutcome, complete_email_join-JoinOutcome}
use golang_auth_api.Services.Sso.{
  OidcClaims, username_base, generate_unique_username_from_email, sso_login,
  create_sso_user_and_identity,
}
use golang_auth_api.Services.Sso.Username.{
  IsFreeName, generate_unique_username_from_email-IsFreeName,
}
use golang_auth_api.Services.Sso.Trusted.{IsTrusted, sso_login-IsTrusted}
use golang_auth_api.Tests.Data.{test_env, test_meta, plain_world, joining_world}

create_email_user_example :
    AtomicValue
      (IsJoined (codes "b@c.io") (codes "Bob") (codes "hash") joining_world.db)
      joining_world.db
      (create_email_user test_env (codes "b@c.io") (codes "Bob") (codes "hash") joining_world)
create_email_user_example =
    create_email_user-AtomicValue test_env (codes "b@c.io") (codes "Bob") (codes "hash")
      joining_world

abbrev bob_context : JoinContext
bob_context = record { email = codes "b@c.io"; session_id = codes "m1" }

complete_email_join_example :
    JoinOutcome test_env
      (codes "b@c.io")
      (codes "Bob")
      (codes "correct horse")
      (codes "correct horse")
      joining_world.db
      (complete_email_join test_env test_meta bob_context
        (codes "Bob")
        (codes "correct horse")
        (codes "correct horse")
        joining_world)
complete_email_join_example =
    complete_email_join-JoinOutcome test_env test_meta bob_context (codes "Bob")
      (codes "correct horse") (codes "correct horse") joining_world

store_and_send_test : (store_and_send test_env (codes "b@c.io") plain_world).0 ≡ ok tt
unfolding store_and_send draw now cache_set send_mail ◌>>=◌ save_verification_code
store_and_send_test = refl

store_and_send_example :
    IsDelivered test_env
      (codes "b@c.io")
      plain_world
      (store_and_send test_env (codes "b@c.io") plain_world).1
store_and_send_example =
    store_and_send-IsDelivered test_env (codes "b@c.io") plain_world store_and_send_test

verify_email_code_test :
    (verify_email_code test_env (codes "B@c.io ") (codes "123456") joining_world).0
    ≡ ok (codes "jwt")
unfolding verify_email_code draw now ◌>>=◌ is_valid_email to_lower trim_space all_bytes
    is_valid_verification_code get_verification_code cache_get entry_get str_eq attempt
    generate_temporary_jwt generate_temporary_session cache_set cache_del
verify_email_code_test = refl

verify_email_code_example : IsProved test_env (codes "B@c.io ") (codes "123456") joining_world
verify_email_code_example =
    verify_email_code-IsProved test_env (codes "B@c.io ") (codes "123456") joining_world
      verify_email_code_test

-- The name of ann is taken, so a number follows.
username_test :
    (generate_unique_username_from_email test_env (codes "_a.nn@x.io") plain_world).0
    ≡ ok (codes "a.nn")
unfolding generate_unique_username_from_email ◌>>=◌ query username_exists any str_eq to_lower keep
    is_empty
username_test = refl

generate_unique_username_example : IsFreeName (codes "a.nn") plain_world.db
generate_unique_username_example =
    generate_unique_username_from_email-IsFreeName test_env (codes "_a.nn@x.io") plain_world
      username_test

-- A local part that is cut behind a dot gives a name that the table refuses.
cut_name_test :
    is_username_display (username_base (codes "abcdefghijklmnopqrstuvw.xyz@x.io")) ≡ false
unfolding is_username_display username_base keep is_empty is_username_rest
cut_name_test = refl

abbrev new_claims : OidcClaims
new_claims = record { subject = codes "g7"; email = codes "Zoe@x.io"; email_verified = true }

abbrev zoe_logged_in : LoginResult
zoe_logged_in = record {
  access_token = codes "jwt";
  refresh_token = codes "rnd";
  user_id = codes "u2";
  username = codes "zoe";
  mfa_required = false;
  mfa_challenge_token = [];
  mfa_methods = [];
}

sso_login_test :
    (sso_login test_env test_meta ProviderName.google UserOrigin.google new_claims plain_world).0
    ≡ ok zoe_logged_in
unfolding sso_login ◌>>=◌ query generate_unique_username_from_email username_exists any str_eq
    to_lower keep is_empty get_identity_by_provider first_joined get_user_id_by_email find attempt
    create_sso_user_and_identity with_tx_value draw statement create_sso_user is_username_display
    is_username_rest create_sso_identity issue_login_session save_session generate_user_tokens
    generate_access_jwt generate_and_store_refresh hash_opaque_token random_token generate_session
    create_refresh_session insert_login touch_user_last_login cache_set now update_where
    record_login_attempt role_name after_save
sso_login_test = refl

sso_login_example :
    IsTrusted test_env ProviderName.google UserOrigin.google new_claims plain_world.db
      (sso_login test_env test_meta ProviderName.google UserOrigin.google new_claims
        plain_world).1.db
sso_login_example =
    sso_login-IsTrusted test_env test_meta ProviderName.google UserOrigin.google new_claims
      plain_world sso_login_test
