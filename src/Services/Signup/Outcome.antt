-- ===== src/Services/Signup/Outcome.antt =====
-- CompleteEmailJoin as a whole.
use mathlib.Core.Path.{subst}
use golang_auth_api.Prelude.{
  arith, ◌+◌, ◌≡◌, refl, ℕ, true, Bool-cases, any, ◌==◌, ◌⊎◌, inl, inr, Option, Str, str_eq,
}
use golang_auth_api.Exec.{
  Exec, Result, ok, err, ◌>>=◌, holds-bind, holds-require, holds-or_raise, or_raise,
}
use golang_auth_api.Exec.Preserves.{Preserves, preserves_rules}
use golang_auth_api.Model.Errors.{ErrorDetail, internal_server_error}
use golang_auth_api.Model.Rows.{User, Database}
use golang_auth_api.Platform.{Env, World, Reply, found, no_rows, failed}
use golang_auth_api.Platform.Transactions.{AtomicValue}
use golang_auth_api.Platform.Frame.{
  HasDatabase, calls_frame, holds-query, OnDatabase, framed, Preserves-statement,
}
use golang_auth_api.Database.Sessions.{RefreshSessionInput, create_refresh_session}
use golang_auth_api.Auth.Validations.{is_valid_email, is_valid_username, is_valid_password}
use golang_auth_api.Auth.Session.{delete_session, delete_temporary_session, generate_session}
use golang_auth_api.Auth.Jwt.{
  TokenPair, generate_user_tokens, rotate_session_tokens, generate_access_jwt,
  generate_and_store_refresh, random_token,
}
use golang_auth_api.Auth.Password.{hash_password_phc}
use golang_auth_api.Services.Common.{RequestMeta, attempt, attempt-eq-some, role_name}
use golang_auth_api.Services.Login.{session_input}
use golang_auth_api.Services.Passwords.Outcome.{Preserves-attempt, Preserves-hash}
use golang_auth_api.Services.Signup.{
  JoinContext, EmailJoinResult, create_email_user, finish_join, start_session, complete_email_join,
}
use golang_auth_api.Services.Signup.Join.{IsJoined, create_email_user-AtomicValue}

-- The users and the identities are those of a database.
pub record HasAccounts (d db : Database) : Type 0 where
  pub users : db.users ≡ d.users
  pub identities : db.auth_identities ≡ d.auth_identities

module _ {C : Type 0} (env : Env C) where
  Preserves-access :
      (d : Database) (id user_id username role : Str) (ttl : ℕ)
      → Preserves (HasDatabase d) (generate_access_jwt env id user_id username role ttl)
  unfolding generate_access_jwt generate_session
  Preserves-access d id user_id username role ttl = search (preserves_rules, calls_frame)

  Preserves-random : (d : Database) (n : ℕ) → Preserves (HasDatabase d) (random_token env n)
  unfolding random_token
  Preserves-random d n = search (preserves_rules, calls_frame)

  Preserves-refresh :
      (d : Database) (id : Str) (ttl : ℕ)
      → Preserves (HasDatabase d) (generate_and_store_refresh env id ttl)
  unfolding generate_and_store_refresh
  Preserves-refresh d id ttl = search (preserves_rules, calls_frame, Preserves-random) depth 8

  Preserves-rotate :
      (d : Database) (id user_id username role : Str) (a r : ℕ)
      → Preserves (HasDatabase d) (rotate_session_tokens env id user_id username role a r)
  unfolding rotate_session_tokens
  Preserves-rotate d id user_id username role a r =
      search (preserves_rules, Preserves-access, Preserves-refresh)

  pub Preserves-tokens :
      (d : Database) (user_id username role : Str) (a r : ℕ)
      → Preserves (HasDatabase d) (generate_user_tokens env user_id username role a r)
  unfolding generate_user_tokens
  Preserves-tokens d user_id username role a r =
      search (preserves_rules, calls_frame, Preserves-rotate)

  pub Preserves-delete :
      {E : Type 0} (d : Database) (id : Str)
      → Preserves (HasDatabase d) (delete_session env {E = E} id)
  unfolding delete_session
  Preserves-delete d id = search (preserves_rules, calls_frame)

  Preserves-delete_temporary :
      {E : Type 0} (d : Database) (id : Str)
      → Preserves (HasDatabase d) (delete_temporary_session env {E = E} id)
  unfolding delete_temporary_session
  Preserves-delete_temporary d id = search (preserves_rules, calls_frame)

  create-HasAccounts :
      (d : Database) (s : RefreshSessionInput) (t : ℕ) (db : Database)
      → HasAccounts d db
      → HasAccounts d (create_refresh_session s t db).1
  unfolding create_refresh_session
  create-HasAccounts d s t db h = elim (Bool-cases (any (λ r. r.id == s.session_id) db.sessions)) [
    | inl taken ↦ rw taken h
    | inr free ↦ rw free (record { users = h.users; identities = h.identities })
  ]

  module _ (meta : RequestMeta) (context : JoinContext) (d : Database) where
    finish_join-HasAccounts :
        (user : User) (tokens : TokenPair) (saved : Reply Unit)
        → Preserves (OnDatabase (HasAccounts d)) (finish_join env meta context user tokens saved)
    unfolding finish_join
    finish_join-HasAccounts user tokens (found u) =
        let del =
          framed (HasAccounts d) _
            (λ db. Preserves-delete_temporary {E = ErrorDetail} db context.session_id) in
        search preserves_rules
    finish_join-HasAccounts user tokens no_rows =
        let del =
          framed (HasAccounts d) _
            (λ db. Preserves-delete {E = ErrorDetail} db tokens.session_id) in
        search preserves_rules
    finish_join-HasAccounts user tokens failed =
        let del =
          framed (HasAccounts d) _
            (λ db. Preserves-delete {E = ErrorDetail} db tokens.session_id) in
        search preserves_rules

    start_session-HasAccounts :
        (user : User) → Preserves (OnDatabase (HasAccounts d)) (start_session env meta context user)
    unfolding start_session
    start_session-HasAccounts user =
        let gen = framed (HasAccounts d) _ (λ db. Preserves-attempt env {E = ErrorDetail} db _ (
          Preserves-tokens db (env.show_uuid user.id) user.username (role_name user.role)
            env.config.access_ttl env.config.refresh_ttl)) in
        let saving = λ (tokens : TokenPair).
          Preserves-statement {E = ErrorDetail} (HasAccounts d) env
            (create_refresh_session (session_input env meta user.id tokens))
            (create-HasAccounts d (session_input env meta user.id tokens)) in
        search (preserves_rules, saving, finish_join-HasAccounts)

-- The accounts of a database in which one user with an email identity has been added.
pub record HasJoined {C : Type 0} (env : Env C) (email username password : Str)
    (before later : Database) : Type 0 where
  pub hash : Str
  pub hashed_at : World C
  pub hashed : (hash_password_phc env password hashed_at).0 ≡ ok hash
  pub user : User
  pub committed : Database
  pub joined : IsJoined email username hash before user committed
  pub accounts : HasAccounts committed later

-- What a joiner must give.
pub record IsJoinable (email username password confirm : Str) : Type 0 where
  pub email_valid : is_valid_email email ≡ true
  pub username_valid : is_valid_username username ≡ true
  pub password_valid : is_valid_password password ≡ true
  pub confirmed : str_eq password confirm ≡ true

-- Either an error and the same database, or a valid request whose account is there.
abbrev pub JoinOutcome :
    {C A : Type 0}
    → Env C
    → Str
    → Str
    → Str
    → Str
    → Database
    → Result ErrorDetail A × World C
    → Type 0
JoinOutcome env email username password confirm before x =
    (((e : ErrorDetail) × (x.0 ≡ err e)) × (x.1.db ≡ before))
    ⊎ (IsJoinable email username password confirm
        × HasJoined env email username password before x.1.db)

module _ {C : Type 0} (env : Env C) (meta : RequestMeta) (context : JoinContext)
    (username password confirm : Str) where
  abbrev OutcomeOf : Database → Result ErrorDetail EmailJoinResult × World C → Type 0
  OutcomeOf before = JoinOutcome env context.email username password confirm before

  created-JoinOutcome :
      (hash : Str) (hashed_at w : World C) (m : Exec (World C) ErrorDetail (Option User))
      (before : Database)
      → IsJoinable context.email username password confirm
      → (hash_password_phc env password hashed_at).0 ≡ ok hash
      → AtomicValue (IsJoined context.email username hash before) before (m w)
      → OutcomeOf before (
          (m >>= λ created.
          or_raise created internal_server_error >>= λ user. start_session env meta context user)
            w)
  unfolding ◌>>=◌
  created-JoinOutcome hash hashed_at w m before valid hashed (inl (refused, same)) =
      rw refused (inl ((internal_server_error, refl), same))
  created-JoinOutcome hash hashed_at w m before valid hashed (inr (user, done, joined)) =
      let kept =
        (start_session-HasAccounts env meta context (m w).1.db user).kept (m w).1
          (record { users = refl; identities = refl }) in
      rw done (
        inr (
          valid,
          record {
            hash = hash;
            hashed_at = hashed_at;
            hashed = hashed;
            user = user;
            committed = (m w).1.db;
            joined = joined;
            accounts = kept;
          },
        ))

  -- CompleteEmailJoin either returns an error and leaves the database as it was, or the email, the name
  -- and the password are valid and the password is confirmed, and then exactly one user with that email
  -- and name, which nobody had, and one email identity with the hash of the password have been added to
  -- the accounts; the latter also where the tokens of the new user could not be made.
  pub complete_email_join-JoinOutcome :
      (w : World C)
      → OutcomeOf w.db (complete_email_join env meta context username password confirm w)
  unfolding complete_email_join
  complete_email_join-JoinOutcome w =
      let Q = OutcomeOf w.db in
      holds-require Q _ _ _ w (λ h. inl ((_, refl), refl))
        (λ email_ok.
          holds-require Q _ _ _ w (λ h. inl ((_, refl), refl))
            (λ username_ok.
              holds-require Q _ _ _ w (λ h. inl ((_, refl), refl))
                (λ password_ok.
                  holds-require Q _ _ _ w (λ h. inl ((_, refl), refl))
                    (λ confirmed. holds-query env Q _ _ w (
                      holds-or_raise Q _ _ _ _ (λ h. inl ((_, refl), refl))
                        (λ taken h.
                          holds-require Q _ _ _ _ (λ h. inl ((_, refl), refl))
                            (λ free.
                              let kept =
                                (Preserves-attempt env w.db _
                                    (Preserves-hash env w.db password)).kept
                                  _ refl in
                              holds-bind Q _ _ _ (λ e h. inl ((e, refl), kept))
                                (λ hashed ran.
                                  holds-or_raise Q _ _ _ _ (λ h. inl ((_, refl), kept))
                                    (λ hash is_hash.
                                      created-JoinOutcome hash _ _
                                        (create_email_user env context.email username hash) w.db
                                        (record {
                                          email_valid = ground arith;
                                          username_valid = username_ok;
                                          password_valid = password_ok;
                                          confirmed = confirmed;
                                        })
                                        (attempt-eq-some _ _ ran is_hash)
                                        (subst
                                          (λ d.
                                            AtomicValue (IsJoined context.email username hash d) d (
                                              create_email_user env context.email username hash
                                                (attempt {E = ErrorDetail}
                                                  (hash_password_phc env password)
                                                  (record w { calls = w.calls + 1 })).1))
                                          kept
                                          (create_email_user-AtomicValue env context.email username
                                            hash _)))))))))))
