-- ===== src/Auth/Jwt.antt =====
-- internal/auth/jwt.go: issuing and verifying access, refresh and temporary tokens, and
-- HashOpaqueToken of hash.go.
pub mod Verified
use golang_auth_api.Prelude.{
  ℕ, ◌+◌, ◌-◌, Bool, true, false, not, ◌&&◌, ltb, Option, none, some, [], ◌∷◌, if◌then◌else◌, any,
  Str, codes, str_eq, is_empty, has_prefix, drop_prefix,
}
use golang_auth_api.Exec.{require, or_raise, pure, raise, ◌>>=◌, ◌>>◌}
use golang_auth_api.Cache.{text}
use golang_auth_api.Platform.{Env, JwtClaims}
use golang_auth_api.Platform.Calls.{Tx, now, draw, cache_set}
use golang_auth_api.Auth.Session.{
  refresh_key, generate_session, generate_temporary_session, is_valid_session,
  is_valid_temporary_session,
}

abbrev pub jwt_issuer : Str
jwt_issuer = codes "auth-api"

abbrev pub jwt_audience : Str
jwt_audience = codes "auth-app"

abbrev pub role_joiner : Str
role_joiner = codes "joiner"

abbrev pub role_mfa_pending : Str
role_mfa_pending = codes "mfa_pending"

abbrev pub bearer : Str
bearer = codes "Bearer "

pub record TokenPair : Type 0 where
  pub access_token : Str
  pub refresh_token : Str
  pub session_id : Str
  pub access_exp : ℕ
  pub refresh_exp : ℕ

-- entities.UserContext
pub record UserContext : Type 0 where
  pub id : Str
  pub username : Str
  pub role : Str
  pub session_id : Str

-- A Go error that is not nil, of no further kind.
abbrev pub Fallible : Type 0 → Type 0 → Type 0
Fallible C A = Tx C A

-- `if err != nil { return err }`
abbrev pub ensure : {C : Type 0} → Bool → Fallible C Unit
ensure b = require b tt

abbrev pub present : {C A : Type 0} → Option A → Fallible C A
present o = or_raise o tt

unfoldable pub has_audience : JwtClaims → Str → Bool
has_audience claims want = any (λ aud. str_eq aud want) claims.audience

module _ {C : Type 0} (env : Env C) where
  -- HashOpaqueToken
  unfoldable pub hash_opaque_token : Str → Str
  hash_opaque_token tok = env.base64_url (env.sha256 tok)

  -- RandomToken: base64url of n random bytes
  unfoldable pub random_token : ℕ → Fallible C Str
  random_token n = do
    drawn ← draw env (env.random_bytes n)
    bytes ← present drawn
    pure (env.base64_url bytes)

  abbrev pub access_claims : Str → Str → Str → Str → ℕ → ℕ → JwtClaims
  access_claims session_id user_id username role t exp = record {
    user_id = user_id;
    username = username;
    role = role;
    subject = user_id;
    issuer = jwt_issuer;
    audience = jwt_audience ∷ [];
    id = session_id;
    expires_at = some exp;
    issued_at = some t;
    not_before = some (t - 5);
  }

  unfoldable pub generate_access_jwt : Str → Str → Str → Str → ℕ → Fallible C (Str × ℕ)
  generate_access_jwt session_id user_id username role ttl = do
    t ← now env
    stored ← generate_session env session_id (t + ttl)
    ensure stored
    signed ← present (env.sign_jwt (access_claims session_id user_id username role t (t + ttl)))
    pure (signed, t + ttl)

  -- The second reading of the clock is `time.Until(exp)`.
  unfoldable pub generate_and_store_refresh : Str → ℕ → Fallible C (Str × ℕ)
  generate_and_store_refresh session_id ttl = do
    raw ← random_token 32
    t ← now env
    t' ← now env
    stored ← cache_set env (refresh_key session_id) (text (hash_opaque_token raw)) (t + ttl - t')
    ensure stored
    pure (raw, t + ttl)

  unfoldable pub rotate_session_tokens : Str → Str → Str → Str → ℕ → ℕ → Fallible C TokenPair
  rotate_session_tokens session_id user_id username role access_ttl refresh_ttl = do
    access ← generate_access_jwt session_id user_id username role access_ttl
    refresh ← generate_and_store_refresh session_id refresh_ttl
    pure (record {
      access_token = access.0;
      refresh_token = refresh.0;
      session_id = session_id;
      access_exp = access.1;
      refresh_exp = refresh.1;
    })

  -- As RotateSessionTokens, for a new session identifier.
  unfoldable pub generate_user_tokens : Str → Str → Str → ℕ → ℕ → Fallible C TokenPair
  unfolding rotate_session_tokens
  generate_user_tokens user_id username role access_ttl refresh_ttl = do
    fresh ← draw env (λ i. env.show_uuid (env.random_uuid i))
    rotate_session_tokens fresh user_id username role access_ttl refresh_ttl

  abbrev pub temporary_claims : Str → Str → Str → ℕ → ℕ → JwtClaims
  temporary_claims id subject role t exp = record {
    user_id = [];
    username = [];
    role = role;
    subject = subject;
    issuer = jwt_issuer;
    audience = jwt_audience ∷ [];
    id = id;
    expires_at = some exp;
    issued_at = some t;
    not_before = some (t - 5);
  }

  unfoldable pub generate_temporary_jwt : Str → Str → ℕ → Fallible C Str
  generate_temporary_jwt subject role ttl = do
    id ← draw env (λ i. env.show_uuid (env.random_uuid i))
    t ← now env
    stored ← generate_temporary_session env id (t + ttl)
    ensure stored
    present (env.sign_jwt (temporary_claims id subject role t (t + ttl)))

  -- `claims.NotBefore != nil && time.Now().Before(…)`, negated; the clock is read if the claim is there.
  unfoldable pub is_in_force : Option ℕ → Fallible C Bool
  is_in_force none = pure true
  is_in_force (some nbf) = do t ← now env; pure (not (ltb t nbf))

  -- What parseJWT checks by hand of an expired token.
  unfoldable pub check_expired : JwtClaims → Fallible C JwtClaims
  unfolding is_in_force
  check_expired claims = do
    ensure (str_eq claims.issuer jwt_issuer)
    ensure (has_audience claims jwt_audience)
    present claims.expires_at
    started ← is_in_force claims.not_before
    ensure started
    pure claims

  unfoldable pub parse_jwt : Str → Bool → Fallible C JwtClaims
  unfolding check_expired
  parse_jwt header allow_expired = do
    ensure (not (is_empty header) && has_prefix header bearer)
    let token = drop_prefix header bearer
    if allow_expired
        then (do claims ← present (env.parse_jwt_signature token); check_expired claims)
        else (do t ← now env; present (env.parse_jwt_claims t token))

  -- `claims.ExpiresAt.Time`, which WithExpirationRequired has found there
  unfoldable pub verify_and_parse_jwt : Str → Fallible C UserContext
  verify_and_parse_jwt header = do
    claims ← parse_jwt header false
    ensure (
        not (is_empty claims.user_id)
        && (not (is_empty claims.id) && not (str_eq claims.role role_joiner)))
    exp ← present claims.expires_at
    valid ← is_valid_session env claims.id exp
    ensure valid
    pure (record {
      id = claims.user_id;
      username = claims.username;
      role = claims.role;
      session_id = claims.id;
    })

  -- The subject and the identifier of the temporary session.
  unfoldable pub verify_and_parse_temporary_jwt : Str → Str → Fallible C (Str × Str)
  verify_and_parse_temporary_jwt header want_role = do
    claims ← parse_jwt header false
    ensure (
        not (is_empty claims.subject) && (not (is_empty claims.id) && str_eq claims.role want_role))
    exp ← present claims.expires_at
    valid ← is_valid_temporary_session env claims.id exp
    ensure valid
    pure (claims.subject, claims.id)

  -- The identifiers of the session and of the user.
  unfoldable pub verify_and_parse_expired_jwt : Str → Fallible C (Str × Str)
  verify_and_parse_expired_jwt header = do
    claims ← parse_jwt header true
    ensure (
        not (is_empty claims.user_id)
        && (not (is_empty claims.id) && not (str_eq claims.role role_joiner)))
    pure (claims.id, claims.user_id)
