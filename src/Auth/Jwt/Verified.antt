-- ===== src/Auth/Jwt/Verified.antt =====
-- What a verified access token or temporary token has established.
use golang_auth_api.Prelude.{
  sym, ℕ, ◌+◌, ◌≤◌, ◌≡◌, true, false, inl, inr, Option-cases, some, Str, str_eq, is_empty,
  has_prefix, drop_prefix, arith,
}
use golang_auth_api.Exec.{
  ok, pure-eq-ok, ◌>>=◌, bind-eq-ok, require-eq-ok, or_raise-eq-ok, or_raise-value,
}
use golang_auth_api.Cache.{Value}
use golang_auth_api.Platform.{Env, World, JwtClaims}
use golang_auth_api.Platform.Calls.{now, cache_get}
use golang_auth_api.Platform.CallLaws.{now-bind}
use golang_auth_api.Auth.Session.{session_key, is_live_key, is_valid_session}
use golang_auth_api.Auth.Jwt.{UserContext, bearer, role_joiner, parse_jwt, verify_and_parse_jwt}

module _ {C : Type 0} (env : Env C) where
  is_live_key-eq-ok :
      (key : Str) (exp : ℕ) (w : World C)
      → (is_live_key env {E = Unit {0}} key exp w).0 ≡ ok true
      → (env.clock w.calls ≤ exp)
        × (v : Value) × (env.redis.get w.cache (env.clock (w.calls + 1)) key ≡ some v)
  unfolding is_live_key now cache_get ◌>>=◌
  is_live_key-eq-ok key exp w h =
      elim (Option-cases (env.redis.get w.cache (env.clock (w.calls + 1)) key)) [
        | inl missing ↦ absurd (ground arith)
        | inr (v, e) ↦ (ground arith, v, e)
      ]

  -- An Authorization header with a bearer token whose claims validate at time `t`.
  pub record IsBearerOf (header : Str) (t : ℕ) (claims : JwtClaims) : Type 0 where
    pub is_bearer : has_prefix header bearer ≡ true
    pub validated : env.parse_jwt_claims t (drop_prefix header bearer) ≡ some claims

  parse_jwt-IsBearerOf :
      (header : Str) (w : World C) {claims : JwtClaims}
      → (parse_jwt env header false w).0 ≡ ok claims
      → IsBearerOf header (env.clock w.calls) claims
  unfolding parse_jwt
  parse_jwt-IsBearerOf header w h =
      let (given, rest) = require-eq-ok _ tt _ w h in
      record { is_bearer = ground arith; validated = or_raise-value _ tt _ (rw now-bind at rest) }

  -- Parsing changes neither store.
  cache-parse_jwt : (header : Str) (w : World C) → (parse_jwt env header false w).1.cache ≡ w.cache
  unfolding parse_jwt now ◌>>=◌
  cache-parse_jwt header w = ground arith

same-cache :
    {C : Type 0} (env : Env C) {c d : C} {t : ℕ} {k : Str} {v : Value}
    → c ≡ d
    → env.redis.get c t k ≡ some v
    → env.redis.get d t k ≡ some v
same-cache env p h = rw (← p) h

-- What an access token that was accepted has established.
pub record IsVerified {C : Type 0} (env : Env C) (header : Str) (w : World C) (u : UserContext)
    : Type 0 where
  pub claims : JwtClaims
  pub t : ℕ
  pub bearer : IsBearerOf env header (env.clock w.calls) claims
  pub has_user : is_empty claims.user_id ≡ false
  pub has_session : is_empty claims.id ≡ false
  pub not_joiner : str_eq claims.role role_joiner ≡ false
  pub session : Value
  pub in_cache : env.redis.get w.cache t (session_key claims.id) ≡ some session
  pub identity : u ≡ record {
    id = claims.user_id;
    username = claims.username;
    role = claims.role;
    session_id = claims.id;
  }

-- An access token is accepted only if its header carries a bearer token whose claims validate, with a
-- user and a session and not of the joiner role, and the session has a value in Redis; the user
-- context is read off the claims.
pub verify_and_parse_jwt-IsVerified :
    {C : Type 0} (env : Env C) (header : Str) (w : World C) {u : UserContext}
    → (verify_and_parse_jwt env header w).0 ≡ ok u
    → IsVerified env header w u
unfolding verify_and_parse_jwt is_valid_session
verify_and_parse_jwt-IsVerified env header w h =
    let (claims, parsed, rest) = bind-eq-ok _ _ w h in
    let (fields, inner) = require-eq-ok _ tt _ _ rest in
    let (exp, expires, checked) = or_raise-eq-ok _ tt _ _ inner in
    let (valid, live, last) = bind-eq-ok _ _ _ checked in
    let (is_valid, done) = require-eq-ok _ tt _ _ last in
    let (in_time, value, stored) = is_live_key-eq-ok env _ exp _ (rw is_valid at live) in
    record {
      claims = claims;
      t = env.clock ((parse_jwt env header false w).1.calls + 1);
      bearer = parse_jwt-IsBearerOf env header w parsed;
      has_user = ground arith;
      has_session = ground arith;
      not_joiner = ground arith;
      session = value;
      in_cache = same-cache env (cache-parse_jwt env header w) stored;
      identity = sym (pure-eq-ok _ _ done);
    }
