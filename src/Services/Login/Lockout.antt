-- ===== src/Services/Login/Lockout.antt =====
-- What a wrong password leaves of the identity.
use golang_auth_api.Prelude.{
  ℕ, ◌+◌, ◌≤◌, ◌≡◌, refl, true, false, leb, ◌==◌, some, is_some, find, update_where, List, All,
  arith,
}
use golang_auth_api.Prelude.{Str}
use golang_auth_api.Prelude.Lists.{All-update_where, find-update_where}
use golang_auth_api.Exec.{err, ◌>>=◌}
use golang_auth_api.Model.Errors.{invalid_credentials}
use golang_auth_api.Model.Rows.{AuthIdentity, Database}
use golang_auth_api.Platform.{Env, World}
use golang_auth_api.Platform.Calls.{statement}
use golang_auth_api.Database.Identities.{
  EmailAuth, increment_failed_login_attempts, lock_auth_identity,
}
use golang_auth_api.Database.Logs.{insert_login}
use golang_auth_api.Services.Common.{RequestMeta, record_login_attempt}
use golang_auth_api.Services.Login.{wrong_password, lock_if_exhausted}

-- Every row of the identity is locked.
abbrev pub IsLocked : ℕ → Database → Type 0
IsLocked id db = All (λ ai. ai.id ≡ id → is_some ai.locked_at ≡ true) db.auth_identities

lock-IsLocked : (id t : ℕ) (db : Database) → IsLocked id (lock_auth_identity id t db).1
unfolding lock_auth_identity
lock-IsLocked id t db =
    All-update_where _ _ _ (λ ai h e. refl) (λ ai h e. ground arith) db.auth_identities

-- The row after the increment.
increment-found :
    (id t : ℕ) (rows : List AuthIdentity) {ai : AuthIdentity}
    → find (λ a. a.id == id) rows ≡ some ai
    → find
        (λ a. a.id == id)
        (update_where
          (λ a. a.id == id)
          (λ a. record a { failed_attempts = a.failed_attempts + 1; last_failed_at = some t })
          rows)
      ≡ some (record ai { failed_attempts = ai.failed_attempts + 1; last_failed_at = some t })
increment-found id t rows h = find-update_where _ _ (λ x. refl) rows h

leb_of : (a b : ℕ) → a ≤ b → leb a b ≡ true
leb_of a b h = ground arith

-- If the database answers, a wrong password whose failure brings the count of the identity to the
-- configured maximum is answered with invalid credentials and locks every row of the identity.
pub wrong_password-IsLocked :
    {C : Type 0} (env : Env C) (meta : RequestMeta) (password : Str) (identity : EmailAuth)
    (ai : AuthIdentity) (w : World C)
    → find (λ a. a.id == identity.identity_id) w.db.auth_identities ≡ some ai
    → env.config.login_max_failed_attempts ≤ ai.failed_attempts + 1
    → env.db_fails w.calls ≡ false
    → env.db_fails (w.calls + 1) ≡ false
    → env.db_fails (w.calls + 1 + 1) ≡ false
    → ((wrong_password env meta password identity w).0 ≡ err invalid_credentials)
      × IsLocked identity.identity_id (wrong_password env meta password identity w).1.db
unfolding wrong_password record_login_attempt lock_if_exhausted statement insert_login ◌>>=◌
    increment_failed_login_attempts
wrong_password-IsLocked env meta password identity ai w row exhausted up up' up'' =
    rw
      (
        up,
        up',
        increment-found identity.identity_id (env.clock (w.calls + 1)) w.db.auth_identities row,
        leb_of _ _ exhausted,
        up'',
      )
      (refl, lock-IsLocked identity.identity_id _ _)
