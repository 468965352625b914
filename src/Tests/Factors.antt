-- ===== src/Tests/Factors.antt =====
-- A whole MFA login at a concrete input.
use golang_auth_api.Prelude.{
  true, ◌≡◌, refl, find, any, update_where, codes, str_eq, is_empty, trim_space, has_prefix,
  drop_prefix,
}
use golang_auth_api.Exec.{ok, ◌>>=◌}
use golang_auth_api.Model.Rows.{is_blocked}
use golang_auth_api.Cache.{entry_get, entry_del}
use golang_auth_api.Platform.Calls.{now, draw, query, statement, cache_get, cache_set, cache_del}
use golang_auth_api.Database.Identities.{get_email_auth_by_user_id, first_joined, joined}
use golang_auth_api.Database.Mfa.{
  get_factor_by_user_id, record_totp_success, record_otp_factor_success,
}
use golang_auth_api.Database.Users.{touch_user_last_login}
use golang_auth_api.Database.Sessions.{create_refresh_session}
use golang_auth_api.Database.Logs.{insert_login}
use golang_auth_api.Auth.Session.{
  delete_temporary_session, generate_session, is_valid_temporary_session,
}
use golang_auth_api.Auth.Jwt.{
  parse_jwt, verify_and_parse_temporary_jwt, hash_opaque_token, random_token, generate_access_jwt,
  generate_and_store_refresh, generate_user_tokens,
}
use golang_auth_api.Auth.Encryption.{decrypt_mfa_secret}
use golang_auth_api.Auth.Totp.{validate_totp_code}
use golang_auth_api.Services.Common.{attempt, role_name, record_login_attempt}
use golang_auth_api.Services.Login.{
  list_enabled_mfa_methods, issue_login_session, save_session, after_save,
}
use golang_auth_api.Services.Mfa.{
  unproved, proved, verify_mfa_login, prove_factor, try_totp, try_email, try_recovery,
}
use golang_auth_api.Auth.OtpCode.{get_mfa_otp_code, delete_mfa_otp_code}
use golang_auth_api.Services.Mfa.EmailCode.{IsEmailOf, try_email-IsEmailOf}
use golang_auth_api.Services.Mfa.Admission.{IsAdmitted, verify_mfa_login-IsAdmitted}
use golang_auth_api.Tests.Data.{test_env, test_meta, totp_world, email_world}
use golang_auth_api.Tests.Logins.{ann_logged_in}

mfa_login_test :
    (verify_mfa_login test_env test_meta (codes "mfa") (codes "totp") (codes "c! ") totp_world).0
    ≡ ok ann_logged_in
unfolding verify_mfa_login decrypt_mfa_secret verify_and_parse_temporary_jwt parse_jwt
    is_valid_temporary_session is_empty has_prefix drop_prefix trim_space str_eq now draw query
    statement cache_get cache_set cache_del entry_get entry_del attempt list_enabled_mfa_methods
    get_factor_by_user_id find any update_where prove_factor try_totp try_email try_recovery
    validate_totp_code record_totp_success get_email_auth_by_user_id first_joined joined is_blocked
    delete_temporary_session issue_login_session touch_user_last_login generate_user_tokens
    generate_access_jwt generate_session generate_and_store_refresh random_token hash_opaque_token
    role_name save_session after_save create_refresh_session record_login_attempt insert_login ◌>>=◌
mfa_login_test = refl

verify_mfa_login_example :
    IsAdmitted test_env test_meta (codes "mfa") (codes "totp") (codes "c! ") totp_world
verify_mfa_login_example =
    verify_mfa_login-IsAdmitted test_env test_meta (codes "mfa") (codes "totp") (codes "c! ")
      totp_world mfa_login_test

try_email_test :
    (try_email test_env (codes "123456") (codes "u1") 1 true unproved email_world).0
    ≡ ok (proved unproved)
unfolding try_email query get_factor_by_user_id find get_mfa_otp_code cache_get entry_get str_eq now
    statement record_otp_factor_success delete_mfa_otp_code cache_del ◌>>=◌
try_email_test = refl

try_email_example :
    (true ≡ true)
    × IsEmailOf test_env
        (codes "123456")
        (codes "u1")
        1
        email_world.db
        (record email_world { calls = 1 })
try_email_example =
    try_email-IsEmailOf test_env (codes "123456") (codes "u1") 1 true unproved email_world refl
      try_email_test refl
