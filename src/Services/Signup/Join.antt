-- ===== src/Services/Signup/Join.antt =====
-- What CreateEmailUser and CompleteEmailJoin leave.
use mathlib.Core.Path.{subst}
use golang_auth_api.Prelude.{
  arith, ◌≡◌, ◌∙◌, sym, ap, refl, ℕ, true, false, not, ◌||◌, some, [], ◌∷◌, ◌++◌, inl, inr,
  Bool-cases, any, Str, to_lower,
}
use golang_auth_api.Exec.{ok, pure, ◌>>=◌, ◌>>◌, require-eq-ok, pure-eq-ok, pure-state, pure-bind}
use golang_auth_api.Model.Rows.{UserOrigin, ProviderName, User, AuthIdentity, Database}
use golang_auth_api.Platform.{Env, World, found}
use golang_auth_api.Platform.Calls.{Tx, must, draw, statement}
use golang_auth_api.Platform.CallLaws.{draw-bind}
use golang_auth_api.Platform.Transactions.{
  AtomicValue, with_tx_value-AtomicValue, query-found, statement-found,
}
use golang_auth_api.Database.Accounts.{
  insert_user, create_user, create_email_auth, insert_identity, new_user, new_identity,
  is_user_conflict, is_identity_conflict, is_username_display,
}
use golang_auth_api.Services.Signup.{create_email_user_in_tx, create_email_user}

-- What an accepted insert says of the table before, and leaves.
pub record IsInserted (row user : User) (before later : Database) : Type 0 where
  pub free : any (is_user_conflict row) before.users ≡ false
  pub well_formed : is_username_display row.username_display ≡ true
  pub same : user ≡ row
  pub state : later ≡ record before { users = before.users ++ row ∷ [] }

pub insert_user-IsInserted :
    (row user : User) (db : Database)
    → (insert_user row db).0 ≡ found user
    → IsInserted row user db (insert_user row db).1
unfolding insert_user
insert_user-IsInserted row user db h =
    elim (Bool-cases
      (any (is_user_conflict row) db.users || not (is_username_display row.username_display))) [
        | inl bad ↦ (let clash = rw bad at h in cc)
        | inr fine ↦ record {
          free = ground arith;
          well_formed = ground arith;
          same = (let e = rw fine at h in cc);
          state = rw fine refl;
        }
      ]

pub record IsAttached (row : AuthIdentity) (before later : Database) : Type 0 where
  pub free : any (is_identity_conflict row) before.auth_identities ≡ false
  pub state : later ≡ record before { auth_identities = before.auth_identities ++ row ∷ [] }

pub insert_identity-IsAttached :
    (row : AuthIdentity) (id : ℕ) (db : Database)
    → (insert_identity row db).0 ≡ found id
    → IsAttached row db (insert_identity row db).1
unfolding insert_identity
insert_identity-IsAttached row id db h =
    elim (Bool-cases (any (is_identity_conflict row) db.auth_identities)) [
      | inl bad ↦ (let clash = rw bad at h in cc)
      | inr fine ↦ record { free = fine; state = rw fine refl }
    ]

-- One new user with the email and the name, which nobody had, and one email identity of that user with
-- the hash; the rest of the database is as it was.
pub record IsJoined (email username hash : Str) (before : Database) (user : User) (later : Database)
    : Type 0 where
  pub id : ℕ
  pub is_new : user ≡ new_user id email username (some UserOrigin.email)
  pub free : any (is_user_conflict user) before.users ≡ false
  pub identity : AuthIdentity
  pub identity_id : ℕ
  pub is_identity :
      identity ≡ new_identity identity_id user.id ProviderName.email (to_lower email) (some hash)
  pub identity_free : any (is_identity_conflict identity) before.auth_identities ≡ false
  pub state : later ≡ record before {
    users = before.users ++ user ∷ [];
    auth_identities = before.auth_identities ++ identity ∷ [];
  }

with_identity : AuthIdentity → Database → Database
with_identity row db = record db { auth_identities = db.auth_identities ++ row ∷ [] }

with_rows : AuthIdentity → Database → User → Database
with_rows row before user = record before {
  users = before.users ++ user ∷ [];
  auth_identities = before.auth_identities ++ row ∷ [];
}

joined_lem :
    (email username hash : Str) (id identity_id : ℕ) (before middle : Database) (user : User)
    (later : Database)
    → IsInserted (new_user id email username (some UserOrigin.email)) user before middle
    → IsAttached
        (new_identity identity_id user.id ProviderName.email (to_lower email) (some hash))
        middle
        later
    → IsJoined email username hash before user later
unfolding with_rows with_identity
joined_lem email username hash id identity_id before middle user later ins att =
    let row = new_identity identity_id user.id ProviderName.email (to_lower email) (some hash) in
    record {
      id = id;
      is_new = ins.same;
      free = ap (λ u. any (is_user_conflict u) before.users) ins.same ∙ ins.free;
      identity = row;
      identity_id = identity_id;
      is_identity = refl;
      identity_free =
          ap (λ d. any (is_identity_conflict row) d.auth_identities) (sym ins.state) ∙ att.free;
      state =
          att.state ∙ ap (with_identity row) ins.state ∙ ap (with_rows row before) (sym ins.same);
    }

module _ {C : Type 0} (env : Env C) (email username hash : Str) where
  add_identity : User → Tx C User
  add_identity user = do
    identity_id ← draw env env.random_uuid
    added ← statement env (create_email_auth identity_id user.id email hash)
    must added
    pure user

  add_identity-IsAttached :
      (user created : User) (w : World C)
      → (add_identity user w).0 ≡ ok created
      → (user ≡ created)
        × ((id : ℕ) × IsAttached
              (new_identity id user.id ProviderName.email (to_lower email) (some hash))
              w.db
              (add_identity user w).1.db)
  unfolding add_identity create_email_auth
  add_identity-IsAttached user created w h =
      let started = rw (draw-bind env _ _ w) at h in
      let (id, got, ran) = statement-found env _ _ _ started in
      (
        pure-eq-ok user _ (rw ran at started),
        (
          env.random_uuid w.calls,
          rw (draw-bind env _ _ w, ran, pure-state Unit user)
              (insert_identity-IsAttached _ id w.db got),
        ),
      )

  add_user : Tx C User
  unfolding add_identity
  add_user = do
    id ← draw env env.random_uuid
    created ← statement env (create_user id email username)
    user ← must created
    add_identity user

  add_user-IsJoined :
      (w : World C) (user : User)
      → (add_user w).0 ≡ ok user
      → IsJoined email username hash w.db user (add_user w).1.db
  unfolding add_user create_user
  add_user-IsJoined w user h =
      let started = rw (draw-bind env _ _ w) at h in
      let (row, got, ran) = statement-found env _ _ _ started in
      let (same, attached) = add_identity-IsAttached row user _ (rw ran at started) in
      rw (draw-bind env _ _ w, ran, sym same)
        (joined_lem email username hash _ attached.0 w.db _ row _
          (insert_user-IsInserted _ row w.db got) attached.1)

  create_email_user_in_tx-IsJoined :
      (u : World C) (user : User)
      → (create_email_user_in_tx env email username hash u).0 ≡ ok user
      → IsJoined email username hash u.db user
          (create_email_user_in_tx env email username hash u).1.db
  unfolding create_email_user_in_tx add_user
  create_email_user_in_tx-IsJoined u user h =
      let (taken, is_taken, looked) = query-found env _ u _ h in
      let (is_free, rest) = require-eq-ok (not taken) tt _ _ (rw looked at h) in
      rw (looked, is_free, pure-bind) (add_user-IsJoined _ user rest)

  -- CreateEmailUser either fails and leaves the database as it was, or succeeds, and then it has added
  -- one user with the email and the name, neither of which another user had, and one email identity of
  -- that user with the hash, and changed nothing else.
  pub create_email_user-AtomicValue :
      (w : World C)
      → AtomicValue
          (IsJoined email username hash w.db)
          w.db
          (create_email_user env email username hash w)
  unfolding create_email_user
  create_email_user-AtomicValue w =
      with_tx_value-AtomicValue env (IsJoined email username hash w.db) _ w (λ u same user ran.
        subst
          (λ d.
            IsJoined email username hash d user
              (create_email_user_in_tx env email username hash u).1.db)
          same (create_email_user_in_tx-IsJoined u user ran))
