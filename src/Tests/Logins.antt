-- ===== src/Tests/Logins.antt =====
-- Runs of the login, MFA, refresh and token services.
use golang_auth_api.Prelude.{
  ◌≡◌, ◌≢◌, refl, true, false, none, some, [], codes, str_eq, str_eq_iff, is_empty, to_upper,
  to_lower, trim_space, has_prefix, drop_prefix, split, all_bytes, ◌||◌, ◌==◌, find, any,
  update_where, arith,
}
use golang_auth_api.Exec.{ok, err, ◌>>=◌}
use golang_auth_api.Model.Errors.{invalid_credentials, session_expired}
use golang_auth_api.Model.Rows.{UserRole, UserStatus, MfaType, is_blocked}
use golang_auth_api.Cache.{text, entry_get}
use golang_auth_api.Platform.Calls.{now, query, statement, draw, cache_get, cache_set}
use golang_auth_api.Database.Identities.{
  EmailAuth, first_joined, joined, get_email_auth_by_email, reset_failed_login_attempts,
}
use golang_auth_api.Database.Sessions.{
  create_refresh_session, get_refresh_session, rotate_refresh_session,
}
use golang_auth_api.Database.Users.{get_user_by_id, touch_user_last_login}
use golang_auth_api.Database.Mfa.{
  get_factor_by_user_id, record_totp_success, get_unused_mfa_recovery_code,
}
use golang_auth_api.Database.Logs.{insert_login}
use golang_auth_api.Auth.Validations.{is_valid_email}
use golang_auth_api.Auth.Session.{refresh_key, generate_session, is_valid_session}
use golang_auth_api.Auth.Jwt.{
  UserContext, hash_opaque_token, random_token, generate_access_jwt, generate_and_store_refresh,
  rotate_session_tokens, generate_user_tokens, parse_jwt, verify_and_parse_jwt,
}
use golang_auth_api.Auth.Jwt.Verified.{IsVerified, verify_and_parse_jwt-IsVerified}
use golang_auth_api.Auth.Password.{get_pepper, verify_password_phc, should_rehash_active}
use golang_auth_api.Auth.Encryption.{decrypt_mfa_secret}
use golang_auth_api.Auth.Totp.{totp_step, validate_totp_code}
use golang_auth_api.Auth.Totp.Replay.{
  InWindow, Fits, validate_totp_code-Fits, validate_totp_code_complete,
}
use golang_auth_api.Services.Common.{attempt, role_name, record_login_attempt}
use golang_auth_api.Services.Login.{
  LoginResult, normalized, list_enabled_mfa_methods, after_save, save_session, issue_login_session,
  password_verified, wrong_password, login,
}
use golang_auth_api.Services.Login.Soundness.{IsAuthenticated, login-IsAuthenticated}
use golang_auth_api.Services.Login.Lockout.{IsLocked, wrong_password-IsLocked}
use golang_auth_api.Services.Login.MfaGate.{HasNoFactor, password_verified-HasNoFactor}
use golang_auth_api.Services.Mfa.{unproved, proved, try_totp, try_recovery}
use golang_auth_api.Services.Mfa.Factors.{
  IsTotpOf, UsedUpIfFound, try_totp-IsTotpOf, try_recovery-any_account,
}
use golang_auth_api.Services.Refresh.{RefreshTokenResult, string_of, refresh_token, logout}
use golang_auth_api.Services.Refresh.Soundness.{IsHonoured, refresh_token-IsHonoured}
use golang_auth_api.Services.Refresh.Revocation.{
  IsEnded, EndsWith, refresh_token-mismatch, logout-IsEnded,
}
use golang_auth_api.Tests.Data.{
  test_env, test_meta, plain_world, totp_world, other_recovery_code, ann_identity,
}

-- At time 1000 the step is 33; the code of a step s is "c" followed by s.
validate_totp_code_test : validate_totp_code test_env (codes "sec") (codes "c!") 32 1000 ≡ some 33
unfolding validate_totp_code str_eq
validate_totp_code_test = refl

validate_totp_code_example :
    InWindow test_env (codes "sec") (codes "c!") 32 1000 33
    × Fits test_env (codes "sec") (codes "c!") 32 33
validate_totp_code_example =
    validate_totp_code-Fits test_env (codes "sec") (codes "c!") 32 1000 validate_totp_code_test

replay_test : validate_totp_code test_env (codes "sec") (codes "c!") 33 1000 ≡ none
unfolding validate_totp_code str_eq
replay_test = refl

window_test : InWindow test_env (codes "sec") (codes "c!") 33 1000 34
unfolding totp_step
window_test = ground arith

replay_example : ¬ Fits test_env (codes "sec") (codes "c!") 33 34
replay_example =
    validate_totp_code_complete test_env (codes "sec") (codes "c!") 33 1000 34 replay_test
      window_test

abbrev pub user_context : UserContext
user_context = record {
  id = codes "u1";
  username = codes "ann";
  role = codes "user";
  session_id = codes "s1";
}

abbrev ann_auth : EmailAuth
ann_auth = record {
  user_id = 1;
  username = codes "ann";
  role = UserRole.user;
  status = some UserStatus.active;
  deleted_at = none;
  identity_id = 5;
  password_hash = ann_identity.password_hash;
  failed_attempts = 2;
  locked_at = none;
}

abbrev pub ann_logged_in : LoginResult
ann_logged_in = record {
  access_token = codes "jwt";
  refresh_token = codes "rnd";
  user_id = codes "u1";
  username = codes "ann";
  mfa_required = false;
  mfa_challenge_token = [];
  mfa_methods = [];
}

try_totp_test : (try_totp test_env (codes "c!") 1 true totp_world).0 ≡ ok (proved unproved)
unfolding try_totp decrypt_mfa_secret query statement get_factor_by_user_id find validate_totp_code
    str_eq now record_totp_success ◌>>=◌
try_totp_test = refl

recovery_lookup_test :
    get_unused_mfa_recovery_code
      (hash_opaque_token test_env (to_upper (codes "abcd")))
      plain_world.db
    ≡ some other_recovery_code
unfolding get_unused_mfa_recovery_code hash_opaque_token to_upper find str_eq
recovery_lookup_test = refl

pub session_given : is_empty (codes "s1") ≡ false
unfolding is_empty
session_given = refl

pub session_parsed : test_env.parse_uuid (codes "s1") ≡ some 11
unfolding str_eq
session_parsed = refl

all_given : (is_empty (codes "s1") || (is_empty (codes "u1") || is_empty (codes "bad"))) ≡ false
unfolding is_empty
all_given = refl

refresh_stored :
    test_env.redis.get plain_world.cache 1000 (refresh_key (codes "s1")) ≡ some (text (codes "raw"))
unfolding entry_get str_eq
refresh_stored = refl

hashes_differ : string_of (text (codes "raw")) ≢ hash_opaque_token test_env (codes "bad")
unfolding hash_opaque_token str_eq
hashes_differ h = let same = (str_eq_iff (codes "raw") (codes "bad")).1 h in cc

ann_row : find (λ a. a.id == 5) plain_world.db.auth_identities ≡ some ann_identity
unfolding find
ann_row = refl

abbrev refreshed : RefreshTokenResult
refreshed = record { access_token = codes "jwt"; refresh_token = codes "rnd" }

refresh_test :
    (refresh_token test_env (codes "s1") (codes "u1") (codes "raw") plain_world).0 ≡ ok refreshed
unfolding refresh_token cache_get cache_set query statement is_empty str_eq entry_get
    hash_opaque_token get_refresh_session get_user_by_id find is_blocked attempt
    rotate_session_tokens generate_access_jwt generate_session generate_and_store_refresh
    random_token now draw rotate_refresh_session role_name any update_where ◌>>=◌
refresh_test = refl

verify_test : (verify_and_parse_jwt test_env (codes "Bearer tok") plain_world).0 ≡ ok user_context
unfolding verify_and_parse_jwt parse_jwt is_empty has_prefix drop_prefix now str_eq is_valid_session
    cache_get entry_get ◌>>=◌
verify_test = refl

password_verified_test :
    (password_verified test_env test_meta (codes "correct horse") ann_auth plain_world).0
    ≡ ok ann_logged_in
unfolding password_verified is_blocked statement reset_failed_login_attempts update_where
    list_enabled_mfa_methods query get_factor_by_user_id find should_rehash_active get_pepper str_eq
    split has_prefix drop_prefix issue_login_session touch_user_last_login attempt
    generate_user_tokens generate_access_jwt generate_session generate_and_store_refresh
    random_token now draw cache_set role_name save_session after_save create_refresh_session any
    record_login_attempt hash_opaque_token insert_login ◌>>=◌
password_verified_test = refl

login_test :
    (login test_env test_meta (codes " A@b.io") (codes "correct horse") plain_world).0
    ≡ ok ann_logged_in
unfolding login is_valid_email all_bytes trim_space to_lower is_empty get_email_auth_by_email
    first_joined joined verify_password_phc password_verified is_blocked statement
    reset_failed_login_attempts update_where list_enabled_mfa_methods query get_factor_by_user_id
    find should_rehash_active get_pepper str_eq split has_prefix drop_prefix issue_login_session
    touch_user_last_login attempt generate_user_tokens generate_access_jwt generate_session
    generate_and_store_refresh random_token now draw cache_set role_name save_session after_save
    create_refresh_session any record_login_attempt hash_opaque_token insert_login ◌>>=◌
login_test = refl

-- The code of step 33, for the TOTP factor of the account.
try_totp_example : (true ≡ true) × IsTotpOf test_env (codes "c!") 1 1001 totp_world.db
try_totp_example = try_totp-IsTotpOf test_env (codes "c!") 1 true totp_world try_totp_test refl

try_recovery_example :
    ((try_recovery test_env (codes "abcd") unproved plain_world).0 ≡ ok (proved unproved))
    × UsedUpIfFound test_env
        (codes "abcd")
        (some other_recovery_code)
        (try_recovery test_env (codes "abcd") unproved plain_world).1.db
try_recovery_example =
    try_recovery-any_account test_env (codes "abcd") unproved (some other_recovery_code) plain_world
      refl recovery_lookup_test refl refl

logout_example :
    ((logout test_env (codes "s1") plain_world).0 ≡ ok tt)
    × IsEnded test_env (codes "s1") 11 (logout test_env (codes "s1") plain_world).1
logout_example =
    logout-IsEnded test_env (codes "s1") 11 plain_world session_given session_parsed refl refl

mismatch_example :
    EndsWith test_env session_expired
      (codes "s1")
      11
      (refresh_token test_env (codes "s1") (codes "u1") (codes "bad") plain_world)
mismatch_example =
    refresh_token-mismatch test_env (codes "s1") (codes "u1") (codes "bad") 11 (text (codes "raw"))
      plain_world all_given session_parsed refresh_stored hashes_differ refl refl refl

wrong_password_example :
    ((wrong_password test_env test_meta (codes "wrong") ann_auth plain_world).0
      ≡ err invalid_credentials)
    × IsLocked 5 (wrong_password test_env test_meta (codes "wrong") ann_auth plain_world).1.db
wrong_password_example =
    wrong_password-IsLocked test_env test_meta (codes "wrong") ann_auth ann_identity plain_world
      ann_row (ground arith) refl refl refl

refresh_token_example : IsHonoured test_env (codes "s1") (codes "u1") (codes "raw") plain_world
refresh_token_example =
    refresh_token-IsHonoured test_env (codes "s1") (codes "u1") (codes "raw") plain_world
      refresh_test

verify_and_parse_jwt_example : IsVerified test_env (codes "Bearer tok") plain_world user_context
verify_and_parse_jwt_example =
    verify_and_parse_jwt-IsVerified test_env (codes "Bearer tok") plain_world verify_test

password_verified_example :
    (is_blocked ann_auth.status ≡ false)
    × HasNoFactor MfaType.totp 1 plain_world.db
    × HasNoFactor MfaType.email 1 plain_world.db
password_verified_example =
    password_verified-HasNoFactor test_env test_meta (codes "correct horse") ann_auth plain_world
      password_verified_test refl

login_example :
    (identity : EmailAuth) × (get_email_auth_by_email (normalized (codes " A@b.io")) plain_world.db
      ≡ some identity)
    × IsAuthenticated test_env test_meta (codes "correct horse") 1001 identity
login_example =
    login-IsAuthenticated test_env test_meta (codes " A@b.io") (codes "correct horse") plain_world
      login_test
