-- ===== src/Platform/CallLaws.antt =====
-- The external calls return to their caller in every case, and change nothing beside their store.
use golang_auth_api.Prelude.{
  ◌+◌, ◌≡◌, if◌then◌else◌, ℕ, refl, true, false, Bool-cases, inl, inr, Str,
}
use golang_auth_api.Exec.{Exec, ◌>>=◌}
use golang_auth_api.Exec.Outcome.{NeverFails}
use golang_auth_api.Model.Rows.{Database}
use golang_auth_api.Cache.{Value}
use golang_auth_api.Platform.{Env, World, Reply, failed}
use golang_auth_api.Platform.Calls.{
  now, query, statement, cache_get, cache_set, cache_del, cache_del_both, send_mail, draw,
}

module _ {C : Type 0} (env : Env C) {E : Type 0} where
  pub NeverFails-now : NeverFails (now env {E = E})
  unfolding now
  NeverFails-now = record { at = λ w. (env.clock w.calls, refl) }

  pub now-bind :
      {B : Type 0} (f : ℕ → Exec (World C) E B) (w : World C)
      → (now env >>= f) w ≡ f (env.clock w.calls) (record w { calls = w.calls + 1 })
  unfolding now ◌>>=◌
  now-bind f w = refl

  pub query-bind :
      {A B : Type 0} (q : ℕ → Database → Reply A) (f : Reply A → Exec (World C) E B) (w : World C)
      → (query env q >>= f) w
        ≡ f
            (if env.db_fails w.calls then failed else q (env.clock w.calls) w.db)
            (record w { calls = w.calls + 1 })
  unfolding query ◌>>=◌
  query-bind q f w = refl

  pub draw-bind :
      {A B : Type 0} (g : ℕ → A) (f : A → Exec (World C) E B) (w : World C)
      → (draw env g >>= f) w ≡ f (g w.calls) (record w { calls = w.calls + 1 })
  unfolding draw ◌>>=◌
  draw-bind g f w = refl

  pub NeverFails-query :
      {A : Type 0} (q : ℕ → Database → Reply A) → NeverFails (query env {E = E} q)
  unfolding query
  NeverFails-query q = record { at = λ w. (_, refl) }

  pub NeverFails-statement :
      {A : Type 0} (q : ℕ → Database → Reply A × Database) → NeverFails (statement env {E = E} q)
  unfolding statement
  NeverFails-statement q = record {
    at = λ w. elim (Bool-cases (env.db_fails w.calls)) [
      | inl e ↦ (failed, rw e)
      | inr e ↦ ((q (env.clock w.calls) w.db).0, rw e)
    ];
  }

  pub NeverFails-cache_get : (k : Str) → NeverFails (cache_get env {E = E} k)
  unfolding cache_get
  NeverFails-cache_get k = record { at = λ w. (_, refl) }

  pub NeverFails-cache_set :
      (k : Str) (v : Value) (ttl : ℕ) → NeverFails (cache_set env {E = E} k v ttl)
  unfolding cache_set
  NeverFails-cache_set k v ttl = record {
    at = λ w. elim (Bool-cases (env.cache_fails w.calls)) [
      | inl e ↦ (false, rw e)
      | inr e ↦ (true, rw e)
    ];
  }

  pub NeverFails-cache_del : (k : Str) → NeverFails (cache_del env {E = E} k)
  unfolding cache_del
  NeverFails-cache_del k = record {
    at = λ w. elim (Bool-cases (env.cache_fails w.calls)) [
      | inl e ↦ (false, rw e)
      | inr e ↦ (true, rw e)
    ];
  }

  pub NeverFails-cache_del_both : (k j : Str) → NeverFails (cache_del_both env {E = E} k j)
  unfolding cache_del_both
  NeverFails-cache_del_both k j = record {
    at = λ w. elim (Bool-cases (env.cache_fails w.calls)) [
      | inl e ↦ (false, rw e)
      | inr e ↦ (true, rw e)
    ];
  }

  pub NeverFails-send_mail : (token to : Str) → NeverFails (send_mail env {E = E} token to)
  unfolding send_mail
  NeverFails-send_mail token to = record {
    at = λ w. elim (Bool-cases (env.mail_fails w.calls)) [
      | inl e ↦ (false, rw e)
      | inr e ↦ (true, rw e)
    ];
  }

  pub NeverFails-draw : {A : Type 0} (f : ℕ → A) → NeverFails (draw env {E = E} f)
  unfolding draw
  NeverFails-draw f = record { at = λ w. (f w.calls, refl) }

pub ruleset calls_return = (
  NeverFails-now, NeverFails-query, NeverFails-statement, NeverFails-cache_get,
  NeverFails-cache_set, NeverFails-cache_del, NeverFails-cache_del_both, NeverFails-send_mail,
  NeverFails-draw,
)
