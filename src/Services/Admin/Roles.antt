-- ===== src/Services/Admin/Roles.antt =====
-- The change of a role, as a whole.
use mathlib.Core.Path.{subst}
use golang_auth_api.Prelude.{
  ℕ, ◌+◌, ◌≡◌, refl, Bool, true, not, none, some, inl, inr, [], ◌∷◌, ◌++◌, All, Str, arith,
}
use golang_auth_api.Prelude.Lists.{All-update_where}
use golang_auth_api.Exec.{Result, Exec, require, ◌>>=◌, ◌>>◌, holds-require, holds-or_raise}
use golang_auth_api.Model.Errors.{ErrorDetail, internal_server_error}
use golang_auth_api.Model.Rows.{UserRole, User, AuditAction, AuditLog, Database}
use golang_auth_api.Platform.{Env, World}
use golang_auth_api.Platform.Calls.{Tx}
use golang_auth_api.Platform.Transactions.{
  IsPlain, Atomic, Atomic-map, AllOrNothing, with_tx-Atomic, statement-eq-ok, grouped-eq-ok,
  last-eq-ok,
}
use golang_auth_api.Database.Users.{set_user_role}
use golang_auth_api.Database.Sessions.{text_or_null}
use golang_auth_api.Database.Logs.{create_audit_log}
use golang_auth_api.Services.Admin.{
  Actor, is_admin, parse_user_role, audit_row, role_reason, with_actor, statement_or_fail,
  change_user_role,
}
use golang_auth_api.Services.Admin.Target.{IsTarget, holds-target}
use golang_auth_api.Services.Admin.Actions.{actor-IsPlain, audit-IsPlain}

-- The live rows of the account have the role, and the audit log has the row as its last.
pub record IsRoleSet (pg : ℕ) (role : UserRole) (row : AuditLog) (before db : Database)
    : Type 0 where
  pub has_role : All (λ u. u.id ≡ pg → u.deleted_at ≡ none → u.role ≡ role) db.users
  pub audited : db.audit_logs ≡ before.audit_logs ++ row ∷ []

role-IsPlain : (role : UserRole) (pg : ℕ) → IsPlain (set_user_role role pg)
unfolding set_user_role
role-IsPlain role pg = record { at = λ t db. refl }

role_writes-IsRoleSet :
    (pg : ℕ) (role : UserRole) (row : AuditLog) (t t' : ℕ) (db : Database)
    → IsRoleSet pg role row db (create_audit_log row t' (set_user_role role pg t db).1).1
unfolding create_audit_log set_user_role
role_writes-IsRoleSet pg role row t t' db = record {
  has_role =
      All-update_where _ _ _ (λ u h e l. refl)
        (λ u h e l. let h' = rw l at h in absurd (ground arith)) db.users;
  audited = refl;
}

module _ {C : Type 0} (env : Env C) where
  abbrev role_statements : ℕ → UserRole → AuditLog → Tx C Unit
  role_statements pg role row = do
    statement_or_fail env (set_user_role role pg)
    statement_or_fail env (create_audit_log row)

  set_role-Atomic :
      (pg : ℕ) (role : UserRole) (row : AuditLog) (w : World C)
      → Atomic (IsRoleSet pg role row w.db) w.db (with_actor env (role_statements pg role row) w)
  unfolding with_actor
  set_role-Atomic pg role row w = with_tx-Atomic env (IsRoleSet pg role row w.db) _ w (λ u same h.
      let (rest, named) = statement-eq-ok env _ _ u actor-IsPlain h in
      let (last, set) = grouped-eq-ok env _ _ _ (role-IsPlain role pg) rest in
      let audited = last-eq-ok env _ _ (audit-IsPlain row) last in
      rw (named, set, audited)
        (subst
          (λ d.
            IsRoleSet pg role row d
              (create_audit_log row (env.clock (u.calls + 1 + 1))
                (set_user_role role pg (env.clock (u.calls + 1)) u.db).1).1)
          same (role_writes-IsRoleSet pg role row _ _ u.db)))

  required-AllOrNothing :
      (P : Database → Type 0) (before : Database) (m : Exec (World C) ErrorDetail Bool)
      (w : World C)
      → Atomic P before (m w)
      → AllOrNothing before (λ u. P) ((m >>= λ done. require done internal_server_error) w)
  unfolding ◌>>=◌
  required-AllOrNothing P before m w (inl (refused, same)) = rw refused same
  required-AllOrNothing P before m w (inr (done, h)) = rw done h

  module _ (actor : Actor) (target_id new_role : Str) where
    abbrev pub role_row : User → ℕ → UserRole → AuditLog
    role_row user pg role =
        audit_row env actor user pg AuditAction.change_role (text_or_null (role_reason env role))

    -- The target and the role that was asked for.
    pub record IsRoleChanged (before after_change : Database) : Type 0 where
      pub role : UserRole
      pub parsed : parse_user_role new_role ≡ some role
      pub not_to_admin : not (is_admin role) ≡ true
      pub user : User
      pub pg : ℕ
      pub target : IsTarget env actor.id target_id before user pg
      pub changed : IsRoleSet pg role (role_row user pg role) before after_change

    abbrev pub RoleOutcome : Database → Result ErrorDetail (Unit {0}) × World C → Type 0
    RoleOutcome before = AllOrNothing before (λ u. IsRoleChanged before)

    after_target_role :
        (before : Database) (role : UserRole) (user : User) (pg : ℕ) (w : World C)
        → w.db ≡ before
        → parse_user_role new_role ≡ some role
        → not (is_admin role) ≡ true
        → IsTarget env actor.id target_id before user pg
        → RoleOutcome before (
            (with_actor env (role_statements pg role (role_row user pg role)) >>= λ done.
            require done internal_server_error)
              w)
    after_target_role before role user pg w same parsed allowed target =
        required-AllOrNothing (IsRoleChanged before) before _ w (
          Atomic-map (IsRoleSet pg role (role_row user pg role) w.db) (IsRoleChanged before) w.db
            before (with_actor env (role_statements pg role (role_row user pg role)) w) same
            (λ db done. record {
              role = role;
              parsed = parsed;
              not_to_admin = allowed;
              user = user;
              pg = pg;
              target = target;
              changed = subst (λ d. IsRoleSet pg role (role_row user pg role) d db) same done;
            })
            (set_role-Atomic pg role (role_row user pg role) w))

-- ChangeUserRole either returns an error and leaves the database as it was, or the new role is user or
-- moderator, the account is another one than the actor's and no admin's, and then, in one
-- transaction, every row of it that is not deleted has the role and the audit log has the row of the
-- change as its last.
pub change_user_role-AllOrNothing :
    {C : Type 0} (env : Env C) (actor : Actor) (target_id new_role : Str) (w : World C)
    → RoleOutcome env actor target_id new_role w.db
        (change_user_role env actor target_id new_role w)
unfolding change_user_role
change_user_role-AllOrNothing env actor target_id new_role w =
    let Q = RoleOutcome env actor target_id new_role w.db in
    holds-or_raise Q _ _ _ w (λ e. refl)
      (λ role parsed.
        holds-target env actor.id target_id Q _ w (λ e u same. same)
          (λ t u same target.
            holds-require Q _ _ _ u (λ e. same)
              (λ allowed.
                after_target_role env actor target_id new_role w.db role t.0 t.1 u same parsed
                  allowed target)))
