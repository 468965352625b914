-- ===== src/Services/Admin/Actions.antt =====
-- The administrator's transactions: the change, the revocation of the sessions and the audit row are
-- committed together or not at all.
use mathlib.Core.Path.{subst}
use golang_auth_api.Services.Passwords.Reset.{revoke-IsPlain}
use golang_auth_api.Prelude.{ℕ, ◌≡◌, refl, Bool, true, false, none, some, [], ◌∷◌, ◌++◌, All, arith}
use golang_auth_api.Prelude.Lists.{All-update_where}
use golang_auth_api.Exec.{pure-bind, ok, ◌>>◌}
use golang_auth_api.Model.Rows.{UserStatus, AuditLog, Database}
use golang_auth_api.Platform.{Env, World, found}
use golang_auth_api.Platform.Calls.{Tx}
use golang_auth_api.Platform.Transactions.{
  IsPlain, Atomic, with_tx-Atomic, after, statement-eq-ok, grouped-eq-ok, last-eq-ok,
}
use golang_auth_api.Database.Users.{set_user_status}
use golang_auth_api.Database.Sessions.{revoke_all_user_sessions}
use golang_auth_api.Database.Sessions.Revocation.{UserRevoked, revoke_all_user_sessions-UserRevoked}
use golang_auth_api.Database.Logs.{create_audit_log}
use golang_auth_api.Services.Admin.{statement_or_fail, revoke_if, with_actor}

-- Every live row of the account has the status; the role likewise.
abbrev pub HasStatus : ℕ → UserStatus → Database → Type 0
HasStatus pg status db =
    All (λ u. u.id ≡ pg → u.deleted_at ≡ none → u.status ≡ some status) db.users

abbrev pub RevokedIf : Bool → ℕ → Database → Type 0
RevokedIf revokes pg db = revokes ≡ true → UserRevoked pg db

-- The status is set, the sessions are revoked where that is asked for, and the audit log has the row
-- as its last.
pub record IsStatusSet (pg : ℕ) (status : UserStatus) (revokes : Bool) (row : AuditLog)
    (before db : Database) : Type 0 where
  pub has_status : HasStatus pg status db
  pub revoked : RevokedIf revokes pg db
  pub audited : db.audit_logs ≡ before.audit_logs ++ row ∷ []

set-HasStatus :
    (status : UserStatus) (pg t : ℕ) (db : Database)
    → HasStatus pg status (set_user_status status pg t db).1
unfolding set_user_status
set-HasStatus status pg t db =
    All-update_where _ _ _ (λ u h e l. refl)
      (λ u h e l. let h' = rw l at h in absurd (ground arith)) db.users

pub actor-IsPlain : IsPlain (λ t db. (found tt, db))
actor-IsPlain = record { at = λ t db. refl }

status-IsPlain : (status : UserStatus) (pg : ℕ) → IsPlain (set_user_status status pg)
unfolding set_user_status
status-IsPlain status pg = record { at = λ t db. refl }

pub audit-IsPlain : (row : AuditLog) → IsPlain (create_audit_log row)
unfolding create_audit_log
audit-IsPlain row = record { at = λ t db. refl }

-- The statements one after the other, with and without the revocation.
revoked_statements :
    (pg : ℕ) (status : UserStatus) (row : AuditLog) (t t' t'' : ℕ) (db : Database)
    → IsStatusSet pg status true row db
        (create_audit_log row t''
          (revoke_all_user_sessions pg t' (set_user_status status pg t db).1).1).1
unfolding create_audit_log
revoked_statements pg status row t t' t'' db = record {
  has_status = unfold revoke_all_user_sessions in set-HasStatus status pg t db;
  revoked = λ e. revoke_all_user_sessions-UserRevoked pg t' (set_user_status status pg t db).1;
  audited = unfold revoke_all_user_sessions in unfold set_user_status in refl;
}

kept_statements :
    (pg : ℕ) (status : UserStatus) (row : AuditLog) (t t' : ℕ) (db : Database)
    → IsStatusSet pg status false row db
        (create_audit_log row t' (set_user_status status pg t db).1).1
unfolding create_audit_log
kept_statements pg status row t t' db = record {
  has_status = set-HasStatus status pg t db;
  revoked = λ e. cc;
  audited = unfold set_user_status in refl;
}

module _ {C : Type 0} (env : Env C) where
  -- The statements of the transaction, after the one that names the actor.
  abbrev pub status_statements : ℕ → UserStatus → Bool → AuditLog → Tx C Unit
  status_statements pg status revokes row = do
    statement_or_fail env (set_user_status status pg)
    revoke_if env revokes pg
    statement_or_fail env (create_audit_log row)

  status_statements-IsStatusSet :
      (pg : ℕ) (status : UserStatus) (revokes : Bool) (row : AuditLog) (u : World C)
      → (status_statements pg status revokes row u).0 ≡ ok tt
      → IsStatusSet pg status revokes row u.db (status_statements pg status revokes row u).1.db
  unfolding revoke_if
  status_statements-IsStatusSet pg status true row u h =
      let (rest, set) = grouped-eq-ok env _ _ u (status-IsPlain status pg) h in
      let (last, revoked) = grouped-eq-ok env _ _ _ (revoke-IsPlain pg) rest in
      let audited = last-eq-ok env _ _ (audit-IsPlain row) last in
      rw (set, revoked, audited) (revoked_statements pg status row _ _ _ u.db)
  status_statements-IsStatusSet pg status false row u h =
      let (rest, set) = grouped-eq-ok env _ _ u (status-IsPlain status pg) h in
      let audited = last-eq-ok env _ _ (audit-IsPlain row) (rw pure-bind at rest) in
      rw (set, pure-bind, audited) (kept_statements pg status row _ _ u.db)

  pub set_status-Atomic :
      (pg : ℕ) (status : UserStatus) (revokes : Bool) (row : AuditLog) (w : World C)
      → Atomic
          (IsStatusSet pg status revokes row w.db)
          w.db
          (with_actor env (status_statements pg status revokes row) w)
  unfolding with_actor
  set_status-Atomic pg status revokes row w =
      with_tx-Atomic env (IsStatusSet pg status revokes row w.db) _ w (λ u same h.
        let (rest, named) = statement-eq-ok env _ _ u actor-IsPlain h in
        rw named (
          subst
            (λ d.
              IsStatusSet pg status revokes row d
                (status_statements pg status revokes row
                  (after env (λ t db. (found tt, db)) u)).1.db)
            same (status_statements-IsStatusSet pg status revokes row _ rest)))
