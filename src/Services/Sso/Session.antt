-- ===== src/Services/Sso/Session.antt =====
-- What the session of a login leaves of the accounts.
use golang_auth_api.Prelude.{
  ◌≡◌, ◌∙◌, ◌==◌, ap, refl, ℕ, Bool-cases, inl, inr, any, map, update_where, Option, none, some,
  List, [], ◌∷◌, Str,
}
use golang_auth_api.Exec.Preserves.{Preserves, preserves_rules}
use golang_auth_api.Model.Errors.{ErrorDetail}
use golang_auth_api.Model.Rows.{User, UserRole, LoginOutcome, Database}
use golang_auth_api.Platform.{Env, Reply, found, no_rows, failed}
use golang_auth_api.Platform.Frame.{OnDatabase, framed, Preserves-statement}
use golang_auth_api.Database.Logs.{insert_login}
use golang_auth_api.Database.Sessions.{RefreshSessionInput, create_refresh_session}
use golang_auth_api.Database.Users.{touch_user_last_login}
use golang_auth_api.Auth.Jwt.{TokenPair}
use golang_auth_api.Services.Common.{RequestMeta, role_name, record_login_attempt}
use golang_auth_api.Services.Login.{session_input, after_save, save_session, issue_login_session}
use golang_auth_api.Services.Passwords.Outcome.{Preserves-attempt}
use golang_auth_api.Services.Signup.Outcome.{Preserves-tokens, Preserves-delete}

-- The users, by their identifiers, and the identities are those of a database.
pub record SameAccounts (d db : Database) : Type 0 where
  pub users : map (λ u. u.id) db.users ≡ map (λ u. u.id) d.users
  pub identities : db.auth_identities ≡ d.auth_identities

touched-ids :
    (id now : ℕ) (xs : List User)
    → map
        (λ u. u.id)
        (update_where
          (λ u. u.id == id)
          (λ u. record u { last_login = some now; last_seen = some now })
          xs)
      ≡ map (λ u. u.id) xs
unfolding update_where
touched-ids id now [] = refl
touched-ids id now (x ∷ xs) = elim (Bool-cases (x.id == id)) [
  | inl this ↦ rw this (ap (λ ids. x.id ∷ ids) (touched-ids id now xs))
  | inr other ↦ rw other (ap (λ ids. x.id ∷ ids) (touched-ids id now xs))
]

touch-SameAccounts :
    (d : Database) (id t : ℕ) (db : Database)
    → SameAccounts d db
    → SameAccounts d (touch_user_last_login id t db).1
unfolding touch_user_last_login
touch-SameAccounts d id t db h = record {
  users = touched-ids id t db.users ∙ h.users;
  identities = h.identities;
}

create-SameAccounts :
    (d : Database) (s : RefreshSessionInput) (t : ℕ) (db : Database)
    → SameAccounts d db
    → SameAccounts d (create_refresh_session s t db).1
unfolding create_refresh_session
create-SameAccounts d s t db h = elim (Bool-cases (any (λ r. r.id == s.session_id) db.sessions)) [
  | inl taken ↦ rw taken h
  | inr free ↦ rw free (record { users = h.users; identities = h.identities })
]

module _ {C : Type 0} (env : Env C) (meta : RequestMeta) (d : Database) where
  record-SameAccounts :
      (user_id identity_id : Option ℕ) (outcome : LoginOutcome)
      → Preserves
          (OnDatabase (SameAccounts d))
          (record_login_attempt env meta user_id identity_id outcome)
  unfolding record_login_attempt insert_login
  record-SameAccounts user_id identity_id outcome =
      Preserves-statement {E = ErrorDetail} (SameAccounts d) env _
        (λ t db h. record { users = h.users; identities = h.identities })

  after_save-SameAccounts :
      (user_id : ℕ) (identity_id : Option ℕ) (username : Str) (tokens : TokenPair) (r : Reply Unit)
      → Preserves
          (OnDatabase (SameAccounts d))
          (after_save env meta user_id identity_id username tokens r)
  unfolding after_save
  after_save-SameAccounts user_id identity_id username tokens (found u) =
      search (preserves_rules, record-SameAccounts)
  after_save-SameAccounts user_id identity_id username tokens no_rows =
      let del =
        framed (SameAccounts d) _
          (λ db. Preserves-delete env {E = ErrorDetail} db tokens.session_id) in
      search preserves_rules
  after_save-SameAccounts user_id identity_id username tokens failed =
      let del =
        framed (SameAccounts d) _
          (λ db. Preserves-delete env {E = ErrorDetail} db tokens.session_id) in
      search preserves_rules

  save_session-SameAccounts :
      (user_id : ℕ) (identity_id : Option ℕ) (username : Str) (o : Option TokenPair)
      → Preserves
          (OnDatabase (SameAccounts d))
          (save_session env meta user_id identity_id username o)
  unfolding save_session
  save_session-SameAccounts user_id identity_id username none = search preserves_rules
  save_session-SameAccounts user_id identity_id username (some tokens) =
      let saving =
        Preserves-statement {E = ErrorDetail} (SameAccounts d) env
          (create_refresh_session (session_input env meta user_id tokens))
          (create-SameAccounts d (session_input env meta user_id tokens)) in
      search (preserves_rules, saving, after_save-SameAccounts)

  -- A session that is issued leaves the identities and adds no user.
  pub issue_login_session-SameAccounts :
      (user_id : ℕ) (identity_id : Option ℕ) (username : Str) (role : UserRole)
      → Preserves
          (OnDatabase (SameAccounts d))
          (issue_login_session env meta user_id identity_id username role)
  unfolding issue_login_session
  issue_login_session-SameAccounts user_id identity_id username role =
      let touch =
        Preserves-statement {E = ErrorDetail} (SameAccounts d) env (touch_user_last_login user_id)
          (touch-SameAccounts d user_id) in
      let gen = framed (SameAccounts d) _ (λ db. Preserves-attempt env {E = ErrorDetail} db _ (
        Preserves-tokens env db (env.show_uuid user_id) username (role_name role)
          env.config.access_ttl env.config.refresh_ttl)) in
      search (preserves_rules, touch, gen, save_session-SameAccounts)
