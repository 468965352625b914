-- ===== src/Services/Admin/Outcome.antt =====
-- The actions that set the status of an account, as a whole.
use mathlib.Core.Path.{subst}
use golang_auth_api.Prelude.{ℕ, ◌≡◌, Bool, true, false, List, Str, trim_space}
use golang_auth_api.Exec.{Result, ◌>>=◌, ◌>>◌, require, holds-bind}
use golang_auth_api.Exec.Preserves.{Preserves, preserves_rules}
use golang_auth_api.Model.Errors.{ErrorDetail, internal_server_error}
use golang_auth_api.Model.Rows.{UserStatus, User, AuditAction, AuditLog, Database}
use golang_auth_api.Platform.{Env, World}
use golang_auth_api.Platform.Transactions.{Atomic-map, AllOrNothing}
use golang_auth_api.Platform.Frame.{HasDatabase, calls_frame}
use golang_auth_api.Database.Sessions.{text_or_null}
use golang_auth_api.Services.Passwords.{delete_sessions}
use golang_auth_api.Services.Passwords.Outcome.{committed-AllOrNothing}
use golang_auth_api.Services.Admin.{
  Actor, audit_row, sessions_if, with_actor, set_user_status_action,
}
use golang_auth_api.Services.Admin.Target.{IsTarget, holds-target}
use golang_auth_api.Services.Admin.Actions.{IsStatusSet, status_statements, set_status-Atomic}

module _ {C : Type 0} (env : Env C) where
  Preserves-sessions_if :
      (d : Database) (revokes : Bool) (pg : ℕ)
      → Preserves (HasDatabase d) (sessions_if env revokes pg)
  unfolding sessions_if
  Preserves-sessions_if d false pg = search (preserves_rules, calls_frame)
  Preserves-sessions_if d true pg = search (preserves_rules, calls_frame)

  module _ (actor : Actor) (target_id reason : Str) (status : UserStatus) (action : AuditAction)
      (revokes : Bool) where
    abbrev pub row_for : User → ℕ → AuditLog
    row_for user pg = audit_row env actor user pg action (text_or_null (trim_space reason))

    -- The action is done on a target.
    pub record IsDone (before after : Database) : Type 0 where
      pub user : User
      pub pg : ℕ
      pub target : IsTarget env actor.id target_id before user pg
      pub changed : IsStatusSet pg status revokes (row_for user pg) before after

    abbrev pub StatusOutcome : Database → Result ErrorDetail (Unit {0}) × World C → Type 0
    StatusOutcome before = AllOrNothing before (λ u. IsDone before)

    after_target :
        (before : Database) (user : User) (pg : ℕ) (w : World C)
        → w.db ≡ before
        → IsTarget env actor.id target_id before user pg
        → (ids : List ℕ)
        → StatusOutcome before (
            (with_actor env (status_statements env pg status revokes (row_for user pg)) >>= λ done.
            require done internal_server_error >> delete_sessions env ids)
              w)
    after_target before user pg w same target ids =
        committed-AllOrNothing env (IsDone before) before _ ids w (
          Atomic-map (IsStatusSet pg status revokes (row_for user pg) w.db) (IsDone before) w.db
            before (with_actor env (status_statements env pg status revokes (row_for user pg)) w)
            same
            (λ db done. record {
              user = user;
              pg = pg;
              target = target;
              changed = subst (λ d. IsStatusSet pg status revokes (row_for user pg) d db) same done;
            })
            (set_status-Atomic env pg status revokes (row_for user pg) w))

-- Banning, unbanning, disabling and enabling an account either returns an error and leaves the
-- database as it was, or the account is another one than the actor's and no admin's, and then, in one
-- transaction, every row of it that is not deleted has the status, its sessions are revoked where the
-- action revokes them, and the audit log has the row of the action as its last.
pub set_user_status_action-AllOrNothing :
    {C : Type 0} (env : Env C) (actor : Actor) (target_id reason : Str) (status : UserStatus)
    (action : AuditAction) (revokes : Bool) (w : World C)
    → StatusOutcome env actor target_id reason status action revokes w.db
        (set_user_status_action env actor target_id reason status action revokes w)
unfolding set_user_status_action
set_user_status_action-AllOrNothing env actor target_id reason status action revokes w =
    let Q = StatusOutcome env actor target_id reason status action revokes w.db in
    holds-target env actor.id target_id Q _ w (λ e u same. same)
      (λ t u same target.
        let kept = (Preserves-sessions_if env w.db revokes t.1).kept u same in
        holds-bind Q _ _ u (λ e h. kept)
          (λ ids h.
            after_target env actor target_id reason status action revokes w.db t.0 t.1 _ kept target
              ids))
