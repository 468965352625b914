-- ===== src/Services/Admin/Deletion.antt =====
-- The deletion of an account, as a whole.
use mathlib.Core.Path.{subst}
use golang_auth_api.Prelude.{
  ℕ, ◌+◌, ◌≡◌, refl, true, is_some, List, [], ◌∷◌, ◌++◌, All, Str, trim_space, arith,
}
use golang_auth_api.Prelude.Lists.{All-update_where}
use golang_auth_api.Exec.{Result, require, ◌>>=◌, ◌>>◌}
use golang_auth_api.Model.Errors.{ErrorDetail, internal_server_error}
use golang_auth_api.Model.Rows.{User, AuditAction, AuditLog, Database}
use golang_auth_api.Platform.{Env, World}
use golang_auth_api.Platform.Calls.{Tx}
use golang_auth_api.Platform.Frame.{holds-query}
use golang_auth_api.Platform.Transactions.{
  IsPlain, Atomic, Atomic-map, AllOrNothing, with_tx-Atomic, statement-eq-ok, grouped-eq-ok,
  last-eq-ok,
}
use golang_auth_api.Database.Users.{soft_delete_user}
use golang_auth_api.Database.Sessions.{text_or_null, revoke_all_user_sessions}
use golang_auth_api.Database.Sessions.Revocation.{UserRevoked, revoke_all_user_sessions-UserRevoked}
use golang_auth_api.Database.Logs.{create_audit_log}
use golang_auth_api.Services.Passwords.{delete_sessions}
use golang_auth_api.Services.Passwords.Reset.{revoke-IsPlain}
use golang_auth_api.Services.Passwords.Outcome.{committed-AllOrNothing}
use golang_auth_api.Services.Admin.{Actor, audit_row, with_actor, statement_or_fail, delete_user}
use golang_auth_api.Services.Admin.Target.{IsTarget, holds-target}
use golang_auth_api.Services.Admin.Actions.{actor-IsPlain, audit-IsPlain}

-- Every row of the account is deleted, its sessions are revoked, and the audit log has the row last.
pub record IsDeleted (pg : ℕ) (row : AuditLog) (before db : Database) : Type 0 where
  pub deleted : All (λ u. u.id ≡ pg → is_some u.deleted_at ≡ true) db.users
  pub revoked : UserRevoked pg db
  pub audited : db.audit_logs ≡ before.audit_logs ++ row ∷ []

delete-IsPlain : (pg : ℕ) → IsPlain (soft_delete_user pg)
unfolding soft_delete_user
delete-IsPlain pg = record { at = λ t db. refl }

delete_marks :
    (pg t : ℕ) (db : Database)
    → All (λ u. u.id ≡ pg → is_some u.deleted_at ≡ true) (soft_delete_user pg t db).1.users
unfolding soft_delete_user
delete_marks pg t db = All-update_where _ _ _ (λ u h e. refl) (λ u h e. ground arith) db.users

delete_writes-IsDeleted :
    (pg : ℕ) (row : AuditLog) (t t' t'' : ℕ) (db : Database)
    → IsDeleted pg row db
        (create_audit_log row t'' (revoke_all_user_sessions pg t' (soft_delete_user pg t db).1).1).1
unfolding create_audit_log
delete_writes-IsDeleted pg row t t' t'' db = record {
  deleted = unfold revoke_all_user_sessions in delete_marks pg t db;
  revoked = revoke_all_user_sessions-UserRevoked pg t' (soft_delete_user pg t db).1;
  audited = unfold revoke_all_user_sessions in unfold soft_delete_user in refl;
}

module _ {C : Type 0} (env : Env C) where
  abbrev delete_statements : ℕ → AuditLog → Tx C Unit
  delete_statements pg row = do
    statement_or_fail env (soft_delete_user pg)
    statement_or_fail env (revoke_all_user_sessions pg)
    statement_or_fail env (create_audit_log row)

  delete-Atomic :
      (pg : ℕ) (row : AuditLog) (w : World C)
      → Atomic (IsDeleted pg row w.db) w.db (with_actor env (delete_statements pg row) w)
  unfolding with_actor
  delete-Atomic pg row w = with_tx-Atomic env (IsDeleted pg row w.db) _ w (λ u same h.
      let (rest, named) = statement-eq-ok env _ _ u actor-IsPlain h in
      let (next, marked) = grouped-eq-ok env _ _ _ (delete-IsPlain pg) rest in
      let (last, revoked) = grouped-eq-ok env _ _ _ (revoke-IsPlain pg) next in
      let audited = last-eq-ok env _ _ (audit-IsPlain row) last in
      rw (named, marked, revoked, audited)
        (subst
          (λ d.
            IsDeleted pg row d
              (create_audit_log row (env.clock (u.calls + 1 + 1 + 1))
                (revoke_all_user_sessions pg (env.clock (u.calls + 1 + 1))
                  (soft_delete_user pg (env.clock (u.calls + 1)) u.db).1).1).1)
          same (delete_writes-IsDeleted pg row _ _ _ u.db)))

  module _ (actor : Actor) (target_id reason : Str) where
    abbrev pub deletion_row : User → ℕ → AuditLog
    deletion_row user pg =
        audit_row env actor user pg AuditAction.user_deleted (text_or_null (trim_space reason))

    pub record IsDeletionOf (before after_deletion : Database) : Type 0 where
      pub user : User
      pub pg : ℕ
      pub target : IsTarget env actor.id target_id before user pg
      pub changed : IsDeleted pg (deletion_row user pg) before after_deletion

    abbrev pub DeletionOutcome : Database → Result ErrorDetail (Unit {0}) × World C → Type 0
    DeletionOutcome before = AllOrNothing before (λ u. IsDeletionOf before)

    after_target_deletion :
        (before : Database) (user : User) (pg : ℕ) (w : World C)
        → w.db ≡ before
        → IsTarget env actor.id target_id before user pg
        → (ids : List ℕ)
        → DeletionOutcome before (
            (with_actor env (delete_statements pg (deletion_row user pg)) >>= λ done.
            require done internal_server_error >> delete_sessions env ids)
              w)
    after_target_deletion before user pg w same target ids =
        committed-AllOrNothing env (IsDeletionOf before) before _ ids w (
          Atomic-map (IsDeleted pg (deletion_row user pg) w.db) (IsDeletionOf before) w.db before
            (with_actor env (delete_statements pg (deletion_row user pg)) w) same
            (λ db done. record {
              user = user;
              pg = pg;
              target = target;
              changed = subst (λ d. IsDeleted pg (deletion_row user pg) d db) same done;
            })
            (delete-Atomic pg (deletion_row user pg) w))

-- DeleteUser either returns an error and leaves the database as it was, or the account is another one
-- than the actor's and no admin's, and then, in one transaction, every row of it is marked as deleted,
-- its sessions are revoked, and the audit log has the row of the deletion as its last.
pub delete_user-AllOrNothing :
    {C : Type 0} (env : Env C) (actor : Actor) (target_id reason : Str) (w : World C)
    → DeletionOutcome env actor target_id reason w.db (delete_user env actor target_id reason w)
unfolding delete_user
delete_user-AllOrNothing env actor target_id reason w =
    let Q = DeletionOutcome env actor target_id reason w.db in
    holds-target env actor.id target_id Q _ w (λ e u same. same)
      (λ t u same target.
        holds-query env Q _ _ u
          (after_target_deletion env actor target_id reason w.db t.0 t.1 _ same target _))
