-- ===== src/Platform/Transactions.antt =====
-- What a transaction leaves: all of its statements, or none.
use golang_auth_api.Prelude.{
  ℕ, ◌+◌, ◌≡◌, ◌∙◌, refl, Bool, true, false, Bool-cases, Option, none, some, ◌⊎◌, inl, inr,
}
use golang_auth_api.Exec.{Result, ok, err, raise, ◌>>=◌}
use golang_auth_api.Model.Rows.{Database}
use golang_auth_api.Platform.{Env, World, Reply, found, no_rows, failed}
use golang_auth_api.Platform.Calls.{
  Tx, must, query, statement, settle, with_tx, settle_value, with_tx_value,
}

-- A statement that returns a reply without a row.
abbrev pub Write : Type 0
Write = ℕ → Database → Reply Unit × Database

-- It reports no error of its own.
pub record IsPlain (q : Write) : Type 0 where
  pub at : (t : ℕ) (db : Database) → (q t db).0 ≡ found tt

abbrev SettledIn :
    {E A : Type 0} → Database → (A → Database → Type 0) → Result E A → Database → Type 0
SettledIn before P (ok a) db = P a db
SettledIn before P (err e) db = db ≡ before

settled-map :
    {E A : Type 0} (P Q : Database → Type 0) (before : Database) (r : Result E A) (db : Database)
    → ((d : Database) → P d → Q d)
    → SettledIn before (λ u. P) r db
    → SettledIn before (λ u. Q) r db
settled-map P Q before (ok a) db f h = f db h
settled-map P Q before (err e) db f h = h

settled-err :
    {E A : Type 0} (before : Database) (P : A → Database → Type 0) (r : Result E A) (db : Database)
    {e : E}
    → SettledIn before P r db
    → r ≡ err e
    → db ≡ before
settled-err before P (ok a) db h x = cc
settled-err before P (err e) db h x = h

settled-ok :
    {E A : Type 0} (before : Database) (P : A → Database → Type 0) (r : Result E A) (db : Database)
    {a : A}
    → SettledIn before P r db
    → r ≡ ok a
    → P a db
settled-ok before P r db h e = rw e at h

module _ {C : Type 0} where
  -- A transaction that failed left the database, and one that succeeded has established `P`.
  abbrev pub Atomic :
      {E : Type 0} → (Database → Type 0) → Database → Result E Bool × World C → Type 0
  Atomic P before (r, w) = ((r ≡ ok false) × (w.db ≡ before)) ⊎ ((r ≡ ok true) × P w.db)

  -- An error leaves the database, and a value has established `P`.
  abbrev pub AllOrNothing :
      {E A : Type 0} → Database → (A → Database → Type 0) → Result E A × World C → Type 0
  AllOrNothing before P (r, w) = SettledIn before P r w.db

  -- From the state in which the caller began, which the transaction found unchanged.
  pub Atomic-map :
      {E : Type 0} (P Q : Database → Type 0) (old before : Database) (x : Result E Bool × World C)
      → old ≡ before
      → ((db : Database) → P db → Q db)
      → Atomic P old x
      → Atomic Q before x
  Atomic-map P Q old before x same f (inl (refused, h)) = inl (refused, h ∙ same)
  Atomic-map P Q old before x same f (inr (done, h)) = inr (done, f _ h)

  pub AllOrNothing-map :
      {E A : Type 0} (P Q : Database → Type 0) (before : Database) (x : Result E A × World C)
      → ((db : Database) → P db → Q db)
      → AllOrNothing before (λ u. P) x
      → AllOrNothing before (λ u. Q) x
  AllOrNothing-map P Q before (r, w) f h = settled-map P Q before r w.db f h

  pub AllOrNothing-err :
      {E A : Type 0} (before : Database) (P : A → Database → Type 0) (x : Result E A × World C)
      {e : E}
      → AllOrNothing before P x
      → x.0 ≡ err e
      → x.1.db ≡ before
  AllOrNothing-err before P (r, w) h e = settled-err before P r w.db h e

  pub AllOrNothing-ok :
      {E A : Type 0} (before : Database) (P : A → Database → Type 0) (x : Result E A × World C)
      {a : A}
      → AllOrNothing before P x
      → x.0 ≡ ok a
      → P a x.1.db
  AllOrNothing-ok before P (r, w) h e = settled-ok before P r w.db h e

  pub raise-AllOrNothing :
      {E A : Type 0} (before : Database) (P : A → Database → Type 0) (e : E) (w : World C)
      → w.db ≡ before
      → AllOrNothing before P (raise e w)
  unfolding ◌>>=◌
  raise-AllOrNothing before P e w same = same

module _ {C : Type 0} where
  -- As `Atomic`, for a transaction with a value.
  abbrev pub AtomicValue :
      {E A : Type 0} → (A → Database → Type 0) → Database → Result E (Option A) × World C → Type 0
  AtomicValue {A = A} P before (r, w) =
      ((r ≡ ok none) × (w.db ≡ before)) ⊎ ((a : A) × (r ≡ ok (some a)) × P a w.db)

module _ {C : Type 0} (env : Env C) {E A : Type 0} (P : A → Database → Type 0) where
  settle_value-AtomicValue :
      (before : Database) (r : Result (Unit {0}) A) (w : World C)
      → ((a : A) → r ≡ ok a → P a w.db)
      → AtomicValue P before (settle_value env {E = E} before r w)
  unfolding settle_value
  settle_value-AtomicValue before (err e) w h = inl (refl, refl)
  settle_value-AtomicValue before (ok a) w h = elim (Bool-cases (env.db_fails w.calls)) [
    | inl down ↦ rw down (inl (refl, refl))
    | inr up ↦ rw up (inr (a, refl, h a refl))
  ]

  -- What the body has established of its value holds if the transaction is committed.
  pub with_tx_value-AtomicValue :
      (body : Tx C A) (w : World C)
      → ((u : World C) → u.db ≡ w.db → (a : A) → (body u).0 ≡ ok a → P a (body u).1.db)
      → AtomicValue P w.db (with_tx_value env {E = E} body w)
  unfolding with_tx_value
  with_tx_value-AtomicValue body w h = elim (Bool-cases (env.db_fails w.calls)) [
    | inl down ↦ rw down (inl (refl, refl))
    | inr up ↦ rw up (settle_value-AtomicValue w.db _ _ (h (record w { calls = w.calls + 1 }) refl))
  ]

module _ {C : Type 0} {A B : Type 0} where
  must-eq-ok :
      (r : Reply A) (f : A → Tx C B) (w : World C) {b : B}
      → ((must r >>= f) w).0 ≡ ok b
      → (a : A) × (r ≡ found a) × ((must r >>= f) w ≡ f a w)
  unfolding ◌>>=◌
  must-eq-ok (found a) f w h = (a, refl, refl)
  must-eq-ok no_rows f w h = cc
  must-eq-ok failed f w h = cc

  module _ (env : Env C) (f : A → Tx C B) (w : World C) {b : B} where
    -- A block that begins with a query and succeeds found its row.
    pub query-found :
        (q : ℕ → Database → Reply A)
        → ((query env q >>= λ r. must r >>= f) w).0 ≡ ok b
        → (a : A) × (q (env.clock w.calls) w.db ≡ found a)
          × ((query env q >>= λ r. must r >>= f) w ≡ f a (record w { calls = w.calls + 1 }))
    unfolding query ◌>>=◌
    query-found q h = elim (Bool-cases (env.db_fails w.calls)) [
      | inl down ↦ (let bad = rw down at h in cc)
      | inr up ↦ rw up (must-eq-ok (q (env.clock w.calls) w.db) f _ (rw up at h))
    ]

    -- As above, for a statement that returns a row.
    pub statement-found :
        (q : ℕ → Database → Reply A × Database)
        → ((statement env q >>= λ r. must r >>= f) w).0 ≡ ok b
        → (a : A) × ((q (env.clock w.calls) w.db).0 ≡ found a)
          × ((statement env q >>= λ r. must r >>= f) w
              ≡ f a (record w { db = (q (env.clock w.calls) w.db).1; calls = w.calls + 1 }))
    unfolding statement ◌>>=◌
    statement-found q h = elim (Bool-cases (env.db_fails w.calls)) [
      | inl down ↦ (let bad = rw down at h in cc)
      | inr up ↦ rw up (must-eq-ok (q (env.clock w.calls) w.db).0 f _ (rw up at h))
    ]

module _ {C : Type 0} (env : Env C) where
  settle-Atomic :
      {E : Type 0} (P : Database → Type 0) (before : Database) (r : Result (Unit {0}) (Unit {0}))
      (w : World C)
      → (r ≡ ok tt → P w.db)
      → Atomic P before (settle env {E = E} before r w)
  unfolding settle
  settle-Atomic P before (err e) w h = inl (refl, refl)
  settle-Atomic P before (ok u) w h = elim (Bool-cases (env.db_fails w.calls)) [
    | inl down ↦ rw down (inl (refl, refl))
    | inr up ↦ rw up (inr (refl, h refl))
  ]

  -- What the body has established when it returns nil holds if the transaction is committed.
  pub with_tx-Atomic :
      {E : Type 0} (P : Database → Type 0) (body : Tx C Unit) (w : World C)
      → ((u : World C) → u.db ≡ w.db → (body u).0 ≡ ok tt → P (body u).1.db)
      → Atomic P w.db (with_tx env {E = E} body w)
  unfolding with_tx
  with_tx-Atomic P body w h = elim (Bool-cases (env.db_fails w.calls)) [
    | inl down ↦ rw down (inl (refl, refl))
    | inr up ↦ rw up (settle-Atomic P w.db _ _ (h (record w { calls = w.calls + 1 }) refl))
  ]

  abbrev pub after : Write → World C → World C
  after q w = record w { db = (q (env.clock w.calls) w.db).1; calls = w.calls + 1 }

  -- A block that begins with a statement and returns nil ran the statement, and then its rest.
  pub statement-eq-ok :
      (q : Write) (f : Unit {0} → Tx C Unit) (w : World C)
      → IsPlain q
      → ((statement env q >>= λ r. must r >>= f) w).0 ≡ ok tt
      → ((f tt (after q w)).0 ≡ ok tt)
        × ((statement env q >>= λ r. must r >>= f) w ≡ f tt (after q w))
  unfolding statement ◌>>=◌
  statement-eq-ok q f w plain h = elim (Bool-cases (env.db_fails w.calls)) [
    | inl down ↦ (let bad = rw down at h in cc)
    | inr up ↦ (rw (up, plain.at) at h, rw (up, plain.at) refl)
  ]

  -- As above, for the last statement.
  pub last-eq-ok :
      (q : Write) (w : World C)
      → IsPlain q
      → ((statement env q >>= λ r. must r) w).0 ≡ ok tt
      → (statement env q >>= λ r. must r) w ≡ (ok tt, after q w)
  unfolding statement ◌>>=◌
  last-eq-ok q w plain h = elim (Bool-cases (env.db_fails w.calls)) [
    | inl down ↦ (let bad = rw down at h in cc)
    | inr up ↦ rw (up, plain.at) refl
  ]

  -- As `statement-eq-ok`, for a statement and its check grouped together.
  pub grouped-eq-ok :
      (q : Write) (f : Unit {0} → Tx C Unit) (w : World C)
      → IsPlain q
      → (((statement env q >>= λ r. must r) >>= f) w).0 ≡ ok tt
      → ((f tt (after q w)).0 ≡ ok tt)
        × (((statement env q >>= λ r. must r) >>= f) w ≡ f tt (after q w))
  unfolding statement ◌>>=◌
  grouped-eq-ok q f w plain h = elim (Bool-cases (env.db_fails w.calls)) [
    | inl down ↦ (let bad = rw down at h in cc)
    | inr up ↦ (rw (up, plain.at) at h, rw (up, plain.at) refl)
  ]
