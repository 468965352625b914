-- ===== src/Services/Refresh/Revocation.antt =====
-- A refresh with a wrong token, and a logout, end the session in both stores.
use golang_auth_api.Prelude.{
  ℕ, ◌+◌, ◌≡◌, ◌≢◌, refl, false, ◌||◌, none, some, Str, str_eq, str_eq_iff, str_eq_refl, is_empty,
  arith,
}
use golang_auth_api.Exec.{Result, ok, err, raise, ◌>>=◌, ◌>>◌}
use golang_auth_api.Model.Errors.{ErrorDetail, session_expired}
use golang_auth_api.Cache.{Value}
use golang_auth_api.Platform.{Env, World, found}
use golang_auth_api.Platform.Calls.{statement, cache_get, cache_del_both}
use golang_auth_api.Database.Sessions.{revoke_session}
use golang_auth_api.Database.Sessions.Revocation.{SessionRevoked, revoke_session-SessionRevoked}
use golang_auth_api.Auth.Session.{session_key, refresh_key, delete_session}
use golang_auth_api.Auth.Jwt.{hash_opaque_token}
use golang_auth_api.Services.Refresh.Soundness.{NeverFails-revoke_compromised_session}
use golang_auth_api.Exec.Outcome.{then-raise}
use golang_auth_api.Services.Refresh.{
  string_of, revoke_compromised_session, check_stored, refresh_token, logout,
}

module _ {C : Type 0} (env : Env C) where
  -- Neither key of the session has a value, at any time.
  pub record IsForgotten (session_id : Str) (c : C) : Type 0 where
    pub no_session : (t : ℕ) → env.redis.get c t (session_key session_id) ≡ none
    pub no_refresh : (t : ℕ) → env.redis.get c t (refresh_key session_id) ≡ none

  get-del_both :
      (c : C) (k j : Str) (t : ℕ)
      → (env.redis.get (env.redis.del (env.redis.del c k) j) t k ≡ none)
        × (env.redis.get (env.redis.del (env.redis.del c k) j) t j ≡ none)
  get-del_both c k j t = (
    ground (
      arith,
      env.redis.get-del (env.redis.del c k) j t k,
      env.redis.get-del c k t k,
      str_eq_refl k,
    ),
    ground (arith, env.redis.get-del (env.redis.del c k) j t j, str_eq_refl j),
  )

  del_both-IsForgotten :
      (session_id : Str) (c : C)
      → IsForgotten session_id
          (env.redis.del (env.redis.del c (session_key session_id)) (refresh_key session_id))
  del_both-IsForgotten session_id c = record {
    no_session = λ t. (get-del_both c _ _ t).0;
    no_refresh = λ t. (get-del_both c _ _ t).1;
  }

  -- The session is gone: revoked in the database, and its keys removed from Redis.
  pub record IsEnded (session_id : Str) (pg : ℕ) (w : World C) : Type 0 where
    pub revoked : SessionRevoked pg w.db
    pub forgotten : IsForgotten session_id w.cache

  revoke_compromised-IsEnded :
      (session_id : Str) (pg : ℕ) (w : World C)
      → env.cache_fails w.calls ≡ false
      → env.db_fails (w.calls + 1) ≡ false
      → IsEnded session_id pg (revoke_compromised_session env session_id pg w).1
  unfolding revoke_compromised_session delete_session cache_del_both statement ◌>>=◌
  revoke_compromised-IsEnded session_id pg w up db_up =
      rw (up, db_up)
        (record {
          revoked = revoke_session-SessionRevoked pg _ w.db;
          forgotten = del_both-IsForgotten session_id w.cache;
        })

  not_same : (a b : Str) → a ≢ b → str_eq a b ≡ false
  not_same a b h = ground (arith, str_eq_iff a b)

  -- An error, with the session ended.
  abbrev pub EndsWith :
      {A : Type 0} → ErrorDetail → Str → ℕ → Result ErrorDetail A × World C → Type 0
  EndsWith e session_id pg (r, w) = (r ≡ err e) × IsEnded session_id pg w

  revoked-EndsWith :
      {A : Type 0} (session_id : Str) (pg : ℕ) (e : ErrorDetail) (w : World C)
      → env.cache_fails w.calls ≡ false
      → env.db_fails (w.calls + 1) ≡ false
      → EndsWith {A = A} e session_id pg
          ((do revoke_compromised_session env session_id pg; raise e) w)
  revoked-EndsWith session_id pg e w up db_up =
      rw (then-raise _ e w (NeverFails-revoke_compromised_session env session_id pg))
        (refl, revoke_compromised-IsEnded session_id pg w up db_up)

  check_stored-mismatch :
      (session_id user_id raw : Str) (pg : ℕ) (stored : Value) (w : World C)
      → string_of stored ≢ hash_opaque_token env raw
      → env.cache_fails w.calls ≡ false
      → env.db_fails (w.calls + 1) ≡ false
      → EndsWith session_expired session_id pg
          (check_stored env session_id user_id raw pg (found stored) w)
  unfolding check_stored
  check_stored-mismatch session_id user_id raw pg stored w differs up db_up =
      rw (not_same _ _ differs) (revoked-EndsWith session_id pg session_expired w up db_up)

-- If Redis and the database answer, a raw token whose hash is not the one stored in Redis for the
-- session is refused as expired and ends the session: every row of the session is revoked, and both of
-- its keys are gone from Redis. The three inputs are not empty and the session's identifier parses.
pub refresh_token-mismatch :
    {C : Type 0} (env : Env C) (session_id user_id raw : Str) (pg : ℕ) (stored : Value)
    (w : World C)
    → (is_empty session_id || (is_empty user_id || is_empty raw)) ≡ false
    → env.parse_uuid session_id ≡ some pg
    → env.redis.get w.cache (env.clock w.calls) (refresh_key session_id) ≡ some stored
    → string_of stored ≢ hash_opaque_token env raw
    → env.cache_fails w.calls ≡ false
    → env.cache_fails (w.calls + 1) ≡ false
    → env.db_fails (w.calls + 1 + 1) ≡ false
    → EndsWith env session_expired session_id pg (refresh_token env session_id user_id raw w)
unfolding refresh_token cache_get ◌>>=◌
refresh_token-mismatch env session_id user_id raw pg stored w given parsed in_cache differs up up'
      db_up =
    rw (given, parsed, up, in_cache)
      (check_stored-mismatch env session_id user_id raw pg stored _ differs up' db_up)

-- The logout of a session whose identifier parses, in which Redis and the database answer, succeeds and
-- ends the session.
pub logout-IsEnded :
    {C : Type 0} (env : Env C) (session_id : Str) (pg : ℕ) (w : World C)
    → is_empty session_id ≡ false
    → env.parse_uuid session_id ≡ some pg
    → env.cache_fails w.calls ≡ false
    → env.db_fails (w.calls + 1) ≡ false
    → ((logout env session_id w).0 ≡ ok tt) × IsEnded env session_id pg (logout env session_id w).1
unfolding logout delete_session cache_del_both statement revoke_session ◌>>=◌
logout-IsEnded env session_id pg w given parsed up db_up =
    rw (given, parsed, up, db_up)
      (
        refl,
        record {
          revoked = unfold revoke_session in revoke_session-SessionRevoked pg _ w.db;
          forgotten = del_both-IsForgotten env session_id w.cache;
        },
      )
