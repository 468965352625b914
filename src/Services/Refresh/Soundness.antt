-- ===== src/Services/Refresh/Soundness.antt =====
-- What a token refresh that returns new tokens has established.
use golang_auth_api.Prelude.{
  ℕ, ◌≡◌, refl, Bool, true, false, not, ◌||◌, inl, inr, Bool-cases, Option, none, some, is_some,
  if◌then◌else◌, Str, str_eq, str_eq_iff, is_empty, arith,
}
use golang_auth_api.Exec.{ok, raise, ◌>>=◌, ◌>>◌, raise-ne-ok}
use golang_auth_api.Exec.Outcome.{Always, NeverFails, IfOk, IfOk-elim, outcome_rules}
use golang_auth_api.Model.Errors.{
  ErrorDetail, unauthorized, session_expired, internal_server_error, account_not_usable,
}
use golang_auth_api.Model.Rows.{Session, User, Database, is_blocked}
use golang_auth_api.Cache.{Value}
use golang_auth_api.Platform.{Env, World, failed, reply_of}
use golang_auth_api.Platform.Calls.{query, cache_get}
use golang_auth_api.Platform.CallLaws.{calls_return}
use golang_auth_api.Database.Sessions.{get_refresh_session}
use golang_auth_api.Database.Users.{get_user_by_id}
use golang_auth_api.Auth.Session.{refresh_key, NeverFails-delete_session}
use golang_auth_api.Auth.Jwt.{hash_opaque_token}
use golang_auth_api.Services.Common.{or_raise, text_of}
use golang_auth_api.Services.Refresh.{
  RefreshTokenResult, string_of, revoke_compromised_session, rotate_for, is_mismatched,
  check_session, check_stored, refresh_token,
}

-- The first of two tests that both fail.
or_false : (a b : Bool) → (a || b) ≡ false → (a ≡ false) × (b ≡ false)
or_false a b h = ground arith

not_none : {A : Type 0} (o : Option A) → is_some o ≡ false → o ≡ none
not_none none h = refl
not_none (some a) h = cc

same : (a b : Str) → not (str_eq a b) ≡ false → a ≡ b
same a b h = (str_eq_iff a b).0 (ground arith)

-- The account may be served.
pub record IsUsable (user : User) : Type 0 where
  pub not_deleted : user.deleted_at ≡ none
  pub not_blocked : is_blocked user.status ≡ false

module _ {C : Type 0} (env : Env C) where
  pub NeverFails-revoke_compromised_session :
      (session_id : Str) (pg : ℕ) → NeverFails (revoke_compromised_session env session_id pg)
  unfolding revoke_compromised_session
  NeverFails-revoke_compromised_session session_id pg =
      search (outcome_rules, calls_return, NeverFails-delete_session)

  revoked_fails :
      (session_id : Str) (pg : ℕ) (e : ErrorDetail)
      → Always {A = RefreshTokenResult}
          (IfOk ⊥)
          (do revoke_compromised_session env session_id pg; raise e)
  revoked_fails session_id pg e = search (outcome_rules, NeverFails-revoke_compromised_session)

  module _ (session_id user_id raw : Str) (pg : ℕ) where
    -- What the refresh has read of the session and of its user.
    pub record IsCurrent (session : Session) : Type 0 where
      pub not_revoked : session.revoked ≡ false
      pub same_user : env.show_uuid session.user_id ≡ user_id
      pub same_hash : text_of session.refresh_token_hash ≡ hash_opaque_token env raw

    rotate_for-IsUsable :
        (session : Session) (o : Option User) (down : Bool) (w : World C) {r : RefreshTokenResult}
        → (rotate_for env session_id user_id raw pg session
            (if down then failed else reply_of o)
            w).0
          ≡ ok r
        → (user : User) × (o ≡ some user) × IsUsable user
    unfolding rotate_for
    rotate_for-IsUsable session o true w h = absurd (raise-ne-ok internal_server_error w h)
    rotate_for-IsUsable session none false w h =
        absurd (IfOk-elim ((revoked_fails session_id pg unauthorized).at w) h)
    rotate_for-IsUsable session (some user) false w h =
        elim (Bool-cases (is_some user.deleted_at || is_blocked user.status)) [
          | inl bad ↦
              absurd
                (IfOk-elim ((revoked_fails session_id pg account_not_usable).at w) (rw bad at h))
          | inr good ↦
              let (kept, usable) = or_false _ _ good in
              (user, refl, record { not_deleted = not_none _ kept; not_blocked = usable })
        ]

    mismatch_cases :
        (session : Session)
        → is_mismatched env session_id user_id raw pg session ≡ false
        → IsCurrent session
    mismatch_cases session h =
        let (live, rest) = or_false _ _ h in
        let (owner, hash) = or_false _ _ rest in
        record { not_revoked = live; same_user = same _ _ owner; same_hash = same _ _ hash }

    check_session-IsCurrent :
        (o : Option Session) (down : Bool) (w : World C) {r : RefreshTokenResult}
        → (check_session env session_id user_id raw pg (if down then failed else reply_of o) w).0
          ≡ ok r
        → (session : Session) × (o ≡ some session)
          × IsCurrent session
          × (user : User) × (get_user_by_id session.user_id w.db ≡ some user)
          × IsUsable user
    unfolding check_session query ◌>>=◌
    check_session-IsCurrent o true w h = absurd (raise-ne-ok internal_server_error w h)
    check_session-IsCurrent none false w h = absurd (raise-ne-ok session_expired w h)
    check_session-IsCurrent (some session) false w h =
        elim (Bool-cases (is_mismatched env session_id user_id raw pg session)) [
          | inl bad ↦
              absurd (IfOk-elim ((revoked_fails session_id pg session_expired).at w) (rw bad at h))
          | inr good ↦
              let (user, e, usable) =
                rotate_for-IsUsable session _ (env.db_fails w.calls) _ (rw good at h) in
              (session, refl, mismatch_cases session good, user, e, usable)
        ]

    -- The row of the session and the row of its user, in the database `db`.
    pub record IsBacked (db : Database) : Type 0 where
      pub session : Session
      pub in_db : get_refresh_session pg db ≡ some session
      pub current : IsCurrent session
      pub user : User
      pub account : get_user_by_id session.user_id db ≡ some user
      pub usable : IsUsable user

    check_stored-IsBacked :
        (o : Option Value) (down : Bool) (w : World C) {r : RefreshTokenResult}
        → (check_stored env session_id user_id raw pg (if down then failed else reply_of o) w).0
          ≡ ok r
        → (stored : Value) × (o ≡ some stored)
          × (string_of stored ≡ hash_opaque_token env raw)
          × IsBacked w.db
    unfolding check_stored query ◌>>=◌
    check_stored-IsBacked o true w h = absurd (raise-ne-ok internal_server_error w h)
    check_stored-IsBacked none false w h = absurd (raise-ne-ok session_expired w h)
    check_stored-IsBacked (some stored) false w h =
        elim (Bool-cases (not (str_eq (string_of stored) (hash_opaque_token env raw)))) [
          | inl bad ↦
              absurd (IfOk-elim ((revoked_fails session_id pg session_expired).at w) (rw bad at h))
          | inr good ↦
              let (session, in_db, current, user, account, usable) =
                check_session-IsCurrent _ (env.db_fails w.calls) _ (rw good at h) in
              (
                stored,
                refl,
                same _ _ good,
                record {
                  session = session;
                  in_db = in_db;
                  current = current;
                  user = user;
                  account = account;
                  usable = usable;
                },
              )
        ]

  -- The conditions under which a refresh is honoured in the state `w`.
  pub record IsHonoured (session_id user_id raw : Str) (w : World C) : Type 0 where
    pub session_pg : ℕ
    pub parsed : env.parse_uuid session_id ≡ some session_pg
    pub stored : Value
    pub in_cache : env.redis.get w.cache (env.clock w.calls) (refresh_key session_id) ≡ some stored
    pub matches : string_of stored ≡ hash_opaque_token env raw
    pub backed : IsBacked session_id user_id raw session_pg w.db

  parsed_cases :
      (session_id user_id raw : Str) (o : Option ℕ) (w : World C) {r : RefreshTokenResult}
      → ((do
        pg ← or_raise o unauthorized
        stored ← cache_get env (refresh_key session_id)
        check_stored env session_id user_id raw pg stored)
          w).0
        ≡ ok r
      → (pg : ℕ) × (o ≡ some pg)
        × (stored : Value) × (env.redis.get w.cache (env.clock w.calls) (refresh_key session_id)
            ≡ some stored)
        × (string_of stored ≡ hash_opaque_token env raw)
        × IsBacked session_id user_id raw pg w.db
  unfolding cache_get ◌>>=◌
  parsed_cases session_id user_id raw none w h = cc
  parsed_cases session_id user_id raw (some pg) w h =
      let (stored, e, matches, backed) =
        check_stored-IsBacked session_id user_id raw pg _ (env.cache_fails w.calls) _ h in
      (pg, refl, stored, e, matches, backed)

-- A refresh that returns new tokens was given the raw token whose hash is stored for the session, in
-- Redis and in the row of the session; that row is not revoked and belongs to the user of the access
-- token, and the user's row is neither deleted nor banned or disabled.
pub refresh_token-IsHonoured :
    {C : Type 0} (env : Env C) (session_id user_id raw : Str) (w : World C) {r : RefreshTokenResult}
    → (refresh_token env session_id user_id raw w).0 ≡ ok r
    → IsHonoured env session_id user_id raw w
unfolding refresh_token
refresh_token-IsHonoured env session_id user_id raw w h =
    elim (Bool-cases (is_empty session_id || (is_empty user_id || is_empty raw))) [
      | inl empty ↦ absurd (raise-ne-ok unauthorized w (rw empty at h))
      | inr given ↦
          let (pg, parsed, stored, in_cache, matches, backed) =
            parsed_cases env session_id user_id raw (env.parse_uuid session_id) w (rw given at h) in
          record {
            session_pg = pg;
            parsed = parsed;
            stored = stored;
            in_cache = in_cache;
            matches = matches;
            backed = backed;
          }
    ]
