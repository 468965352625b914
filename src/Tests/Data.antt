-- ===== src/Tests/Data.antt =====
-- An environment in which nothing fails, with stand-ins for the cryptography, and a small database.
use golang_auth_api.Prelude.{
  ℕ, zero, suc, ◌+◌, ◌==◌, true, false, Option, none, some, List, [], ◌∷◌, ◌++◌, if◌then◌else◌, Str,
  codes, str_eq,
}
use golang_auth_api.Model.Rows.{
  UserStatus, UserRole, MfaType, ProviderName, ResetSource, User, AuthIdentity, Session, MfaFactor,
  MfaRecoveryCode, PasswordReset, Database, OtpMeta,
}
use golang_auth_api.Cache.{Entry, redis_list, text, otp}
use golang_auth_api.Platform.{Env, World, Config, JwtClaims}
use golang_auth_api.Services.Common.{RequestMeta}
use golang_auth_api.Services.Admin.{Actor}

abbrev pub test_config : Config
test_config = record {
  otp_ttl = 600;
  access_ttl = 900;
  refresh_ttl = 5000;
  temporary_token_ttl = 600;
  login_max_failed_attempts = 3;
  login_lock_duration = 900;
  password_reset_ttl = 600;
  mfa_challenge_ttl = 300;
  mfa_recovery_code_count = 2;
  mfa_issuer = codes "auth";
  mfa_encryption_key = codes "key";
  active_pepper_id = codes "k";
  peppers = (codes "k", codes "pepper") ∷ [];
}

abbrev pub access_claims_of_user : JwtClaims
access_claims_of_user = record {
  user_id = codes "u1";
  username = codes "ann";
  role = codes "user";
  subject = codes "u1";
  issuer = codes "auth-api";
  audience = codes "auth-app" ∷ [];
  id = codes "s1";
  expires_at = some 2000;
  issued_at = some 900;
  not_before = some 895;
}

-- The same user in another session.
abbrev other_claims : JwtClaims
other_claims = record access_claims_of_user { id = codes "s2" }

-- The token of a pending MFA login.
abbrev pending_claims : JwtClaims
pending_claims = record access_claims_of_user {
  user_id = [];
  role = codes "mfa_pending";
  id = codes "m1";
}

abbrev claims_of : Str → Option JwtClaims
claims_of token =
    if str_eq token (codes "tok")
    then some access_claims_of_user
    else if str_eq token (codes "tok2")
    then some other_claims
    else if str_eq token (codes "mfa")
    then some pending_claims
    else none

abbrev parse : Str → Option ℕ
parse s =
    if str_eq s (codes "u1")
    then some 1
    else if str_eq s (codes "u2")
    then some 2
    else if str_eq s (codes "s1")
    then some 11
    else none

abbrev show : ℕ → Str
show n = if n == 1 then codes "u1" else if n == 11 then codes "s1" else codes "u2"

-- Argon2 answers its password, and the encodings are the identity.
abbrev pub test_env : Env (List Entry)
test_env = record {
  config = test_config;
  redis = redis_list;
  clock = λ i. 1000 + i;
  db_fails = λ i. false;
  cache_fails = λ i. false;
  mail_fails = λ i. false;
  random_bytes = λ n i. some (codes "rnd");
  random_code = λ i. codes "123456";
  random_uuid = λ i. 7;
  parse_uuid = parse;
  show_uuid = show;
  base64_url = λ s. s;
  base64_url_decode = λ s. some s;
  base64_encode = λ s. s;
  base64_decode = λ s. some s;
  base32_encode = λ s. s;
  sha256 = λ s. s;
  argon2_id_key = λ password salt t m p len. password;
  aes_gcm = λ key. some (record {
    nonce_size = 3;
    seal = λ nonce plain. plain;
    unseal = λ nonce cipher. some cipher;
  });
  generate_totp_key = λ issuer account i. some (codes "sec", codes "otpauth");
  generate_totp_code =
      λ secret step. if str_eq secret (codes "sec") then some (codes "c" ++ step ∷ []) else none;
  sign_jwt = λ claims. some (codes "jwt");
  parse_jwt_claims = λ t token. claims_of token;
  parse_jwt_signature = claims_of;
}

abbrev pub test_meta : RequestMeta
test_meta = record { ip = codes "ip"; user_agent = codes "ua" }

abbrev pub test_actor : Actor
test_actor = record { id = codes "u2"; username = codes "root"; meta = test_meta }

abbrev pub ann : User
ann = record {
  id = 1;
  email = codes "a@b.io";
  username = codes "ann";
  username_display = codes "Ann";
  status = some UserStatus.active;
  role = UserRole.user;
  origin = none;
  last_login = none;
  last_seen = none;
  deleted_at = none;
}

-- The password is "correct horse", with the pepper behind it.
abbrev pub ann_identity : AuthIdentity
ann_identity = record {
  id = 5;
  user_id = 1;
  provider = ProviderName.email;
  provider_user_id = codes "a@b.io";
  password_hash = some (codes "$argon2id$v=19$m=131072,t=2,p=4,pepper=k$salt$correct horsepepper");
  failed_attempts = 2;
  last_failed_at = none;
  locked_at = none;
  last_login = none;
}

abbrev pub ann_session : Session
ann_session = record {
  id = 11;
  user_id = 1;
  expires_at = 9000;
  refresh_token_hash = some (codes "raw");
  rotated_at = none;
  revoked = false;
  revoked_at = none;
  ip = none;
  user_agent = none;
}

abbrev pub ann_factor : MfaFactor
ann_factor = record {
  id = 21;
  user_id = 1;
  kind = MfaType.totp;
  secret = some (codes "rndsec");
  enabled = true;
  verified = true;
  failed_attempts = 0;
  last_used_at = none;
  last_used_step = some 32;
  created_at = 1;
}

-- A recovery code of another account's factor.
abbrev pub other_recovery_code : MfaRecoveryCode
other_recovery_code = record { id = 31; factor_id = 99; code_hash = codes "ABCD"; used_at = none }

abbrev pub ann_reset : PasswordReset
ann_reset = record {
  id = 41;
  user_id = 1;
  reset_token = codes "reset";
  created_at = 900;
  expires_at = 1500;
  used_at = none;
  source = ResetSource.web;
}

abbrev pub test_db : List MfaFactor → Database
test_db factors = record {
  users = ann ∷ [];
  auth_identities = ann_identity ∷ [];
  sessions = ann_session ∷ [];
  mfa_factors = factors;
  mfa_recovery_codes = other_recovery_code ∷ [];
  password_resets = ann_reset ∷ [];
  logins = [];
  audit_logs = [];
  webauthn_credentials = [];
}

abbrev pub test_cache : List Entry
test_cache =
    record { key = codes "session:s1"; value = text (codes "1"); expires = 2000 }
    ∷ (record { key = codes "refresh:s1"; value = text (codes "raw"); expires = 9000 }
        ∷ (record { key = codes "session:s2"; value = text (codes "1"); expires = 2000 }
            ∷ (record {
              key = codes "temporary_session:m1";
              value = text (codes "1");
              expires = 2000;
            }
                ∷ [])))

-- The account without a second factor, and with TOTP.
abbrev pub plain_world : World (List Entry)
plain_world = record { db = test_db []; cache = test_cache; outbox = []; calls = 0 }

abbrev pub totp_world : World (List Entry)
totp_world = record { db = test_db (ann_factor ∷ []); cache = test_cache; outbox = []; calls = 0 }

abbrev ann_email_factor : MfaFactor
ann_email_factor = record ann_factor { id = 22; kind = MfaType.email; secret = none }

abbrev pub ann_code : OtpMeta
ann_code = record {
  code = codes "123456";
  created_at = 900;
  expires_at = 1500;
  attempts = 1;
  max_attempts = 5;
}

-- The account with an email factor, and a code on its way.
abbrev pub email_world : World (List Entry)
email_world = record {
  db = test_db (ann_email_factor ∷ []);
  cache =
      record { key = codes "mfa_otp:email:login:u1"; value = otp ann_code; expires = 1500 } ∷ [];
  outbox = [];
  calls = 0;
}

-- A source of randomness that answers zeros.
abbrev pub zeros : ℕ → Str
zeros zero = []
zeros (suc n) = 0 ∷ zeros n

abbrev pub crypto_env : Env (List Entry)
crypto_env = record test_env { random_bytes = λ n i. some (zeros n) }

-- The account with a TOTP factor that waits for its first code.
abbrev pub pending_world : World (List Entry)
pending_world = record {
  db =
      test_db (record ann_factor { enabled = false; verified = false; last_used_step = none } ∷ []);
  cache = [];
  outbox = [];
  calls = 0;
}

-- A code on its way to an email that has no account.
abbrev pub joining_world : World (List Entry)
joining_world = record {
  db = test_db [];
  cache = record { key = codes "email_code:b@c.io"; value = otp ann_code; expires = 1500 } ∷ [];
  outbox = [];
  calls = 0;
}
