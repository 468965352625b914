-- ===== src/Platform/Calls.antt =====
-- The external calls: reading the clock, database statements and transactions, Redis commands,
-- mail. A call that fails leaves its store as it was.
-- internal/db/postgres/with_tx.go is here too.
use golang_auth_api.Prelude.{
  ℕ, ◌+◌, Bool, true, false, Option, none, some, [], ◌∷◌, ◌++◌, if◌then◌else◌, Str,
}
use golang_auth_api.Exec.{Result, ok, err, Exec, pure, raise}
use golang_auth_api.Model.Rows.{Database}
use golang_auth_api.Platform.{Env, World, Reply, found, no_rows, failed, reply_of}
use golang_auth_api.Cache.{Value}

-- In a transaction every error that is not nil ends the function with it.
abbrev pub Tx : Type 0 → Type 0 → Type 0
Tx C A = Exec (World C) Unit A

-- The error of a query that must find a row or run.
abbrev pub must : {C A : Type 0} → Reply A → Tx C A
must (found a) = pure a
must no_rows = raise tt
must failed = raise tt

-- `err == nil`
abbrev pub is_found : {A : Type 0} → Reply A → Bool
is_found (found a) = true
is_found no_rows = false
is_found failed = false

module _ {C : Type 0} (env : Env C) where
  abbrev ticked : World C → World C
  ticked w = record w { calls = w.calls + 1 }

  -- time.Now()
  unfoldable pub now : {E : Type 0} → Exec (World C) E ℕ
  now w = (ok (env.clock w.calls), record w { calls = w.calls + 1 })

  -- A statement that only reads, at the database's clock.
  unfoldable pub query : {E A : Type 0} → (ℕ → Database → Reply A) → Exec (World C) E (Reply A)
  query q w = (
    ok (if env.db_fails w.calls then failed else q (env.clock w.calls) w.db),
    record w { calls = w.calls + 1 },
  )

  -- A statement that writes, with what it returns.
  unfoldable pub statement :
      {E A : Type 0} → (ℕ → Database → Reply A × Database) → Exec (World C) E (Reply A)
  statement q w = if env.db_fails w.calls then (ok failed, record w { calls = w.calls + 1 }) else (
    ok (q (env.clock w.calls) w.db).0,
    record w { db = (q (env.clock w.calls) w.db).1; calls = w.calls + 1 },
  )

  -- The end of `WithTx`: a rollback, or a commit that may fail.
  unfoldable pub settle :
      {E : Type 0} → Database → Result (Unit {0}) (Unit {0}) → Exec (World C) E Bool
  settle before (err _) w = (ok false, record w { db = before })
  settle before (ok _) w =
      if env.db_fails w.calls
      then (ok false, record w { db = before; calls = w.calls + 1 })
      else (ok true, record w { calls = w.calls + 1 })

  -- postgres.WithTx: true if it returns nil.
  unfoldable pub with_tx : {E : Type 0} → Tx C Unit → Exec (World C) E Bool
  unfolding settle
  with_tx body w =
      if env.db_fails w.calls
      then (ok false, record w { calls = w.calls + 1 })
      else (let (r, w') = body (record w { calls = w.calls + 1 }) in settle w.db r w')

  -- As above, for a transaction whose function sets a variable of the caller.
  unfoldable pub settle_value :
      {E A : Type 0} → Database → Result (Unit {0}) A → Exec (World C) E (Option A)
  settle_value before (err _) w = (ok none, record w { db = before })
  settle_value before (ok a) w =
      if env.db_fails w.calls
      then (ok none, record w { db = before; calls = w.calls + 1 })
      else (ok (some a), record w { calls = w.calls + 1 })

  -- postgres.WithTx with the variable: the value if it returns nil.
  unfoldable pub with_tx_value : {E A : Type 0} → Tx C A → Exec (World C) E (Option A)
  unfolding settle_value
  with_tx_value body w =
      if env.db_fails w.calls
      then (ok none, record w { calls = w.calls + 1 })
      else (let (r, w') = body (record w { calls = w.calls + 1 }) in settle_value w.db r w')

  -- rdb.Get: a missing key is `no_rows` (redis.Nil).
  unfoldable pub cache_get : {E : Type 0} → Str → Exec (World C) E (Reply Value)
  cache_get k w = (
    ok (
        if env.cache_fails w.calls
        then failed
        else reply_of (env.redis.get w.cache (env.clock w.calls) k)),
    record w { calls = w.calls + 1 },
  )

  -- rdb.Set: true if `err == nil`
  unfoldable pub cache_set : {E : Type 0} → Str → Value → ℕ → Exec (World C) E Bool
  cache_set k v ttl w =
      if env.cache_fails w.calls then (ok false, record w { calls = w.calls + 1 }) else (
        ok true,
        record w { cache = env.redis.set w.cache (env.clock w.calls) k v ttl; calls = w.calls + 1 },
      )

  -- rdb.Del of one key
  unfoldable pub cache_del : {E : Type 0} → Str → Exec (World C) E Bool
  cache_del k w =
      if env.cache_fails w.calls
      then (ok false, record w { calls = w.calls + 1 })
      else (ok true, record w { cache = env.redis.del w.cache k; calls = w.calls + 1 })

  -- rdb.Del of two keys
  unfoldable pub cache_del_both : {E : Type 0} → Str → Str → Exec (World C) E Bool
  cache_del_both k j w =
      if env.cache_fails w.calls then (ok false, record w { calls = w.calls + 1 }) else (
        ok true,
        record w { cache = env.redis.del (env.redis.del w.cache k) j; calls = w.calls + 1 },
      )

  -- The mailer: true if the message was accepted.
  unfoldable pub send_mail : {E : Type 0} → Str → Str → Exec (World C) E Bool
  send_mail token to w =
      if env.mail_fails w.calls then (ok false, record w { calls = w.calls + 1 }) else (
        ok true,
        record w {
          outbox = w.outbox ++ record { to = to; token = token } ∷ [];
          calls = w.calls + 1;
        },
      )

  -- A value drawn from the environment.
  unfoldable pub draw : {E A : Type 0} → (ℕ → A) → Exec (World C) E A
  draw f w = (ok (f w.calls), record w { calls = w.calls + 1 })
