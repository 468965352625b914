-- ===== src/Services/Sso/Registered.antt =====
-- The account that SSOLogin registers.
use mathlib.Core.Path.{subst}
use golang_auth_api.Prelude.{
  ◌≡◌, ◌∙◌, sym, ap, refl, ℕ, false, Bool-cases, inl, inr, any, none, some, [], ◌∷◌, ◌++◌, Str,
}
use golang_auth_api.Exec.{ok, pure, ◌>>=◌, pure-eq-ok, pure-state}
use golang_auth_api.Model.Rows.{User, UserOrigin, ProviderName, AuthIdentity, Database}
use golang_auth_api.Platform.{Env, World, found}
use golang_auth_api.Platform.Calls.{Tx, must, draw, statement}
use golang_auth_api.Platform.CallLaws.{draw-bind}
use golang_auth_api.Platform.Transactions.{AtomicValue, with_tx_value-AtomicValue, statement-found}
use golang_auth_api.Database.Accounts.{
  new_user, new_identity, is_user_conflict, is_identity_conflict, insert_identity, create_sso_user,
  create_sso_identity,
}
use golang_auth_api.Services.Signup.Join.{
  IsInserted, IsAttached, insert_user-IsInserted, insert_identity-IsAttached,
}
use golang_auth_api.Services.Sso.{CreatedSsoUser, create_sso_user_and_identity}

insert_identity-id :
    (row : AuthIdentity) (id : ℕ) (db : Database)
    → (insert_identity row db).0 ≡ found id
    → id ≡ row.id
unfolding insert_identity
insert_identity-id row id db h =
    elim (Bool-cases (any (is_identity_conflict row) db.auth_identities)) [
      | inl bad ↦ (let clash = rw bad at h in cc)
      | inr fine ↦ (let e = rw fine at h in cc)
    ]

-- One new user with the email, whose identifier, email and name no other user has, and one identity of
-- that user for the provider's subject; the rest of the database is as it was.
pub record IsRegistered {C : Type 0} {env : Env C} (email username : Str) (origin : UserOrigin)
    (provider : ProviderName) (subject : Str) (before : Database) (created : CreatedSsoUser env)
    (later : Database) : Type 0 where
  pub user : User
  pub is_new : user ≡ new_user created.user_id email username (some origin)
  pub free : any (is_user_conflict user) before.users ≡ false
  pub state : later ≡ record before {
    users = before.users ++ user ∷ [];
    auth_identities =
        before.auth_identities
        ++ new_identity created.identity_id created.user_id provider subject none ∷ [];
  }

module _ {C : Type 0} (env : Env C) where
  module _ (email username : Str) (origin : UserOrigin) (provider : ProviderName)
      (subject : Str) where
    abbrev pub IsRegisteredFrom : Database → CreatedSsoUser env → Database → Type 0
    IsRegisteredFrom before = IsRegistered {env = env} email username origin provider subject before

    -- The second half of the transaction.
    add_sso_identity : User → Tx C (CreatedSsoUser env)
    add_sso_identity user = do
      fresh ← draw env env.random_uuid
      added ← statement env (create_sso_identity fresh user.id provider subject)
      identity_id ← must added
      pure (record { user_id = user.id; identity_id = identity_id; username = user.username })

    abbrev IsAdded : User → Database → Database → CreatedSsoUser env → Type 0
    IsAdded user before later created =
        (created.user_id ≡ user.id)
        × IsAttached (new_identity created.identity_id created.user_id provider subject none) before
            later

    add_sso_identity-IsAdded :
        (user : User) (w : World C) (created : CreatedSsoUser env)
        → (add_sso_identity user w).0 ≡ ok created
        → IsAdded user w.db (add_sso_identity user w).1.db created
    unfolding add_sso_identity create_sso_identity
    add_sso_identity-IsAdded user w created h =
        let started = rw (draw-bind env _ _ w) at h in
        let (id, got, ran) = statement-found env _ _ _ started in
        let value = pure-eq-ok _ _ (rw ran at started) in
        let row = insert_identity-IsAttached _ id w.db got in
        let fresh = new_identity (env.random_uuid w.calls) user.id provider subject none in
        let later = (insert_identity fresh w.db).1 in
        let same = insert_identity-id _ id w.db got in
        rw (draw-bind env _ _ w, ran, pure-state Unit)
          (subst (IsAdded user w.db later) value (
            refl,
            subst (λ i. IsAttached (new_identity i user.id provider subject none) w.db later)
                (sym same) row,
          ))

    add_sso_user : Tx C (CreatedSsoUser env)
    unfolding add_sso_identity
    add_sso_user = do
      id ← draw env env.random_uuid
      created ← statement env (create_sso_user id email username origin)
      user ← must created
      add_sso_identity user

    registered_lem :
        (id : ℕ) (user : User) (before middle later : Database) (created : CreatedSsoUser env)
        → IsInserted (new_user id email username (some origin)) user before middle
        → IsAdded user middle later created
        → IsRegisteredFrom before created later
    registered_lem id user before middle later created ins (same, att) =
        let row = new_identity created.identity_id created.user_id provider subject none in
        record {
          user = new_user id email username (some origin);
          is_new =
              ap (λ i. new_user i email username (some origin))
                (sym (same ∙ ap {A = User} (λ u. u.id) ins.same));
          free = ins.free;
          state =
              att.state
              ∙ ap {A = Database}
                  (λ d. record d { auth_identities = d.auth_identities ++ row ∷ [] }) ins.state;
        }

    add_sso_user-IsRegistered :
        (w : World C) (created : CreatedSsoUser env)
        → (add_sso_user w).0 ≡ ok created
        → IsRegisteredFrom w.db created (add_sso_user w).1.db
    unfolding add_sso_user create_sso_user
    add_sso_user-IsRegistered w created h =
        let started = rw (draw-bind env _ _ w) at h in
        let (user, got, ran) = statement-found env _ _ _ started in
        rw (draw-bind env _ _ w, ran)
          (registered_lem _ user w.db _ _ created (insert_user-IsInserted _ user w.db got)
            (add_sso_identity-IsAdded user _ created (rw ran at started)))

    -- CreateSSOUserAndIdentity, as a transaction
    pub create_sso-AtomicValue :
        (w : World C)
        → AtomicValue
            (IsRegisteredFrom w.db)
            w.db
            (create_sso_user_and_identity env email username origin provider subject w)
    unfolding create_sso_user_and_identity add_sso_user add_sso_identity
    create_sso-AtomicValue w =
        with_tx_value-AtomicValue env (IsRegisteredFrom w.db) _ w (λ u same created ran.
          subst (λ d. IsRegisteredFrom d created (add_sso_user u).1.db) same
            (add_sso_user-IsRegistered u created ran))
