-- ===== src/Platform/Frame.antt =====
-- The calls that leave the database as it is.
use mathlib.Core.Path.{subst}
use golang_auth_api.Prelude.{sym, refl, ℕ, ◌+◌, ◌≡◌, Bool-cases, inl, inr, if◌then◌else◌, Str}
use golang_auth_api.Exec.{Result, Exec, ◌>>=◌}
use golang_auth_api.Exec.Preserves.{Preserves}
use golang_auth_api.Model.Rows.{Database}
use golang_auth_api.Cache.{Value}
use golang_auth_api.Platform.{Env, World, Reply, failed}
use golang_auth_api.Platform.Calls.{
  now, query, statement, cache_get, cache_set, cache_del, cache_del_both, send_mail, draw,
}

abbrev pub HasDatabase : {C : Type 0} → Database → World C → Type 0
HasDatabase d w = w.db ≡ d

module _ {C : Type 0} (env : Env C) {E : Type 0} {d : Database} where
  pub Preserves-now : Preserves (HasDatabase d) (now env {E = E})
  unfolding now
  Preserves-now = record { kept = λ w h. h }

  pub Preserves-query :
      {A : Type 0} (q : ℕ → Database → Reply A) → Preserves (HasDatabase d) (query env {E = E} q)
  unfolding query
  Preserves-query q = record { kept = λ w h. h }

  pub Preserves-cache_get : (k : Str) → Preserves (HasDatabase d) (cache_get env {E = E} k)
  unfolding cache_get
  Preserves-cache_get k = record { kept = λ w h. h }

  pub Preserves-cache_set :
      (k : Str) (v : Value) (ttl : ℕ) → Preserves (HasDatabase d) (cache_set env {E = E} k v ttl)
  unfolding cache_set
  Preserves-cache_set k v ttl = record {
    kept = λ w h. elim (Bool-cases (env.cache_fails w.calls)) [ inl e ↦ rw e h | inr e ↦ rw e h ];
  }

  pub Preserves-cache_del : (k : Str) → Preserves (HasDatabase d) (cache_del env {E = E} k)
  unfolding cache_del
  Preserves-cache_del k = record {
    kept = λ w h. elim (Bool-cases (env.cache_fails w.calls)) [ inl e ↦ rw e h | inr e ↦ rw e h ];
  }

  pub Preserves-cache_del_both :
      (k j : Str) → Preserves (HasDatabase d) (cache_del_both env {E = E} k j)
  unfolding cache_del_both
  Preserves-cache_del_both k j = record {
    kept = λ w h. elim (Bool-cases (env.cache_fails w.calls)) [ inl e ↦ rw e h | inr e ↦ rw e h ];
  }

  pub Preserves-send_mail :
      (token to : Str) → Preserves (HasDatabase d) (send_mail env {E = E} token to)
  unfolding send_mail
  Preserves-send_mail token to = record {
    kept = λ w h. elim (Bool-cases (env.mail_fails w.calls)) [ inl e ↦ rw e h | inr e ↦ rw e h ];
  }

  pub Preserves-draw : {A : Type 0} (f : ℕ → A) → Preserves (HasDatabase d) (draw env {E = E} f)
  unfolding draw
  Preserves-draw f = record { kept = λ w h. h }

pub ruleset calls_frame = (
  Preserves-now, Preserves-query, Preserves-cache_get, Preserves-cache_set, Preserves-cache_del,
  Preserves-cache_del_both, Preserves-send_mail, Preserves-draw,
)

module _ {κ} {C : Type 0} (env : Env C) {E B : Type 0} (Q : Result E B × World C → Type κ) where
  -- A block that begins with a query, by the reply and the rest.
  pub holds-query :
      {A : Type 0} (q : ℕ → Database → Reply A) (f : Reply A → Exec (World C) E B) (w : World C)
      → Q (
          f
            (if env.db_fails w.calls then failed else q (env.clock w.calls) w.db)
            (record w { calls = w.calls + 1 }))
      → Q ((query env q >>= f) w)
  unfolding query ◌>>=◌
  holds-query q f w h = h

  -- As above, for a value drawn.
  pub holds-draw :
      {A : Type 0} (g : ℕ → A) (f : A → Exec (World C) E B) (w : World C)
      → Q (f (g w.calls) (record w { calls = w.calls + 1 }))
      → Q ((draw env g >>= f) w)
  unfolding draw ◌>>=◌
  holds-draw g f w h = h

  -- A block that begins with a reading of the clock.
  pub holds-now :
      (f : ℕ → Exec (World C) E B) (w : World C)
      → Q (f (env.clock w.calls) (record w { calls = w.calls + 1 }))
      → Q ((now env >>= f) w)
  unfolding now ◌>>=◌
  holds-now f w h = h

  -- A block that begins with a statement, which failed or ran.
  pub holds-statement :
      {A : Type 0} (q : ℕ → Database → Reply A × Database) (f : Reply A → Exec (World C) E B)
      (w : World C)
      → Q (f failed (record w { calls = w.calls + 1 }))
      → Q (
          f
            (q (env.clock w.calls) w.db).0
            (record w { db = (q (env.clock w.calls) w.db).1; calls = w.calls + 1 }))
      → Q ((statement env q >>= f) w)
  unfolding statement ◌>>=◌
  holds-statement q f w bad good = elim (Bool-cases (env.db_fails w.calls)) [
    | inl e ↦ rw e bad
    | inr e ↦ rw e good
  ]

-- An invariant of the database alone.
abbrev pub OnDatabase : {C : Type 0} → (Database → Type 0) → World C → Type 0
OnDatabase Inv w = Inv w.db

module _ {C : Type 0} {E A : Type 0} where
  -- What leaves the database keeps all that holds of it.
  pub framed :
      (Inv : Database → Type 0) (m : Exec (World C) E A)
      → ((d : Database) → Preserves (HasDatabase d) m)
      → Preserves (OnDatabase Inv) m
  framed Inv m keeps = record { kept = λ w h. subst Inv (sym ((keeps w.db).kept w refl)) h }

  pub Preserves-statement :
      (Inv : Database → Type 0) (env : Env C) (q : ℕ → Database → Reply A × Database)
      → ((t : ℕ) (db : Database) → Inv db → Inv (q t db).1)
      → Preserves (OnDatabase Inv) (statement env {E = E} q)
  unfolding statement
  Preserves-statement Inv env q keeps = record {
    kept = λ w h. elim (Bool-cases (env.db_fails w.calls)) [
      | inl e ↦ rw e h
      | inr e ↦ rw e (keeps (env.clock w.calls) w.db h)
    ];
  }
