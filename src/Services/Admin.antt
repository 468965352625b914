-- ===== src/Services/Admin.antt =====
-- internal/services/admin_service.go: the actions on accounts, with WithActor of
-- internal/db/postgres/admin.go. What a trigger writes besides is not modelled, so setting the actor
-- for the triggers is a statement without an effect.
pub mod Target
pub mod Actions
pub mod Outcome
pub mod Roles
pub mod Deletion
pub mod Listing
use golang_auth_api.Prelude.{
  ℕ, ◌+◌, Bool, true, false, not, ◌==◌, Option, none, some, List, [], ◌++◌, if◌then◌else◌, Str,
  codes, str_eq, is_empty, trim_space, to_lower,
}
use golang_auth_api.Exec.{pure, raise, ◌>>=◌, ◌>>◌}
use golang_auth_api.Model.Errors.{
  user_not_found, cannot_target_self, admin_protected, internal_server_error, invalid_role,
}
use golang_auth_api.Model.Rows.{
  UserRole, UserStatus, User, AuditAction, AuditLog, ResetSource, Database,
}
use golang_auth_api.Platform.{Env, Service, Reply, found, no_rows, failed, reply_of}
use golang_auth_api.Platform.Calls.{
  Tx, must, now, draw, query, statement, with_tx, send_mail, is_found,
}
use golang_auth_api.Database.Sessions.{
  text_or_null, list_active_session_ids, revoke_all_user_sessions,
}
use golang_auth_api.Database.Users.{
  get_user_by_id, set_user_status, set_user_role, soft_delete_user,
}
use golang_auth_api.Database.Resets.{create_password_reset}
use golang_auth_api.Database.Logs.{create_audit_log}
use golang_auth_api.Auth.Jwt.{hash_opaque_token, random_token}
use golang_auth_api.Services.Common.{RequestMeta, role_name, attempt, require, or_raise}
use golang_auth_api.Services.Passwords.{ids_of, delete_sessions}

-- parseUserStatus
unfoldable pub parse_user_status : Str → Option UserStatus
parse_user_status text =
    let s = to_lower (trim_space text) in
    if str_eq s (codes "active")
    then some UserStatus.active
    else if str_eq s (codes "offline")
    then some UserStatus.offline
    else if str_eq s (codes "disabled")
    then some UserStatus.disabled
    else if str_eq s (codes "banned")
    then some UserStatus.banned
    else none

-- parseUserRole
unfoldable pub parse_user_role : Str → Option UserRole
parse_user_role text =
    let s = to_lower (trim_space text) in
    if str_eq s (codes "user")
    then some UserRole.user
    else if str_eq s (codes "moderator")
    then some UserRole.moderator
    else if str_eq s (codes "admin")
    then some UserRole.admin
    else none

abbrev pub is_admin : UserRole → Bool
is_admin UserRole.admin = true
is_admin UserRole.moderator = false
is_admin UserRole.user = false

-- `ok && actorPG.Bytes == targetPG.Bytes`
abbrev pub is_self : Option ℕ → ℕ → Bool
is_self none target = false
is_self (some actor) target = actor == target

-- The acting administrator and the request.
pub record Actor : Type 0 where
  pub id : Str
  pub username : Str
  pub meta : RequestMeta

module _ {C : Type 0} (env : Env C) where
  unfoldable pub check_target : Reply User → Service C User
  check_target failed = raise internal_server_error
  check_target no_rows = raise user_not_found
  check_target (found target) = if is_admin target.role then raise admin_protected else pure target

  -- loadAdminTarget; the row of the target holds its identifier.
  unfoldable pub load_admin_target : Str → Str → Service C (User × ℕ)
  unfolding check_target
  load_admin_target actor_id target_id = do
    target_pg ← or_raise (env.parse_uuid target_id) user_not_found
    require (not (is_self (env.parse_uuid actor_id) target_pg)) cannot_target_self
    reply ← query env (λ t db. reply_of (get_user_by_id target_pg db))
    target ← check_target reply
    pure (target, target_pg)

  abbrev pub audit_row : Actor → User → ℕ → AuditAction → Option Str → AuditLog
  audit_row actor target target_pg action reason = record {
    actor_id = env.parse_uuid actor.id;
    actor_username = text_or_null actor.username;
    target_user_id = some target_pg;
    target_username = text_or_null target.username;
    target_email = text_or_null target.email;
    action = action;
    reason = reason;
    ip = text_or_null actor.meta.ip;
    user_agent = text_or_null actor.meta.user_agent;
  }

  -- WithActor
  unfoldable pub with_actor : Tx C Unit → Service C Bool
  with_actor body =
      with_tx env (do named ← statement env (λ t db. (found tt, db)); must named; body)

  abbrev pub statement_or_fail : (ℕ → Database → Reply Unit × Database) → Tx C Unit
  statement_or_fail q = do reply ← statement env q; must reply

  unfoldable pub revoke_if : Bool → ℕ → Tx C Unit
  revoke_if revokes target_pg =
      if revokes then statement_or_fail (revoke_all_user_sessions target_pg) else pure tt

  unfoldable pub sessions_if : Bool → ℕ → Service C (List ℕ)
  sessions_if false target_pg = pure []
  sessions_if true target_pg = do
    reply ← query env (λ t db. found (list_active_session_ids target_pg db))
    pure (ids_of reply)

  -- setUserStatusAction
  unfoldable pub set_user_status_action :
      Actor → Str → Str → UserStatus → AuditAction → Bool → Service C Unit
  unfolding revoke_if sessions_if
  set_user_status_action actor target_id reason status action revokes = do
    target ← load_admin_target actor.id target_id
    ids ← sessions_if revokes target.1
    done ← with_actor (do
      statement_or_fail (set_user_status status target.1)
      revoke_if revokes target.1
      statement_or_fail (
          create_audit_log
            (audit_row actor target.0 target.1 action (text_or_null (trim_space reason)))))
    require done internal_server_error
    delete_sessions env ids

  unfoldable pub ban_user : Actor → Str → Str → Service C Unit
  ban_user actor target_id reason =
      set_user_status_action actor target_id reason UserStatus.banned AuditAction.user_ban true

  unfoldable pub unban_user : Actor → Str → Str → Service C Unit
  unban_user actor target_id reason =
      set_user_status_action actor target_id reason UserStatus.active AuditAction.user_unban false

  unfoldable pub disable_user : Actor → Str → Str → Service C Unit
  disable_user actor target_id reason =
      set_user_status_action actor target_id reason UserStatus.disabled AuditAction.change_status
        true

  unfoldable pub enable_user : Actor → Str → Str → Service C Unit
  enable_user actor target_id reason =
      set_user_status_action actor target_id reason UserStatus.active AuditAction.change_status
        false

  -- An empty reason is replaced.
  abbrev pub logout_reason : Str → Option Str
  logout_reason reason =
      if is_empty (trim_space reason)
      then some (codes "All sessions revoked by admin")
      else text_or_null (trim_space reason)

  unfoldable pub force_logout_user : Actor → Str → Str → Service C Unit
  force_logout_user actor target_id reason = do
    target ← load_admin_target actor.id target_id
    reply ← query env (λ t db. found (list_active_session_ids target.1 db))
    done ← with_actor (do
      statement_or_fail (revoke_all_user_sessions target.1)
      statement_or_fail (
          create_audit_log
            (audit_row actor target.0 target.1 AuditAction.admin_note (logout_reason reason))))
    require done internal_server_error
    delete_sessions env (ids_of reply)

  abbrev pub role_reason : UserRole → Str
  role_reason role = codes "Role changed to " ++ (role_name role ++ codes " by admin")

  unfoldable pub change_user_role : Actor → Str → Str → Service C Unit
  change_user_role actor target_id new_role = do
    role ← or_raise (parse_user_role new_role) invalid_role
    target ← load_admin_target actor.id target_id
    require (not (is_admin role)) admin_protected
    done ← with_actor (do
      statement_or_fail (set_user_role role target.1)
      statement_or_fail (
          create_audit_log (
            audit_row actor target.0 target.1 AuditAction.change_role
              (text_or_null (role_reason role)))))
    require done internal_server_error

  unfoldable pub delete_user : Actor → Str → Str → Service C Unit
  delete_user actor target_id reason = do
    target ← load_admin_target actor.id target_id
    reply ← query env (λ t db. found (list_active_session_ids target.1 db))
    done ← with_actor (do
      statement_or_fail (soft_delete_user target.1)
      statement_or_fail (revoke_all_user_sessions target.1)
      statement_or_fail (
          create_audit_log (
            audit_row actor target.0 target.1 AuditAction.user_deleted
              (text_or_null (trim_space reason)))))
    require done internal_server_error
    delete_sessions env (ids_of reply)

  unfoldable pub admin_reset_user_password : Actor → Str → Service C Unit
  admin_reset_user_password actor target_id = do
    target ← load_admin_target actor.id target_id
    drawn ← attempt (random_token env 32)
    raw ← or_raise drawn internal_server_error
    t ← now env
    id ← draw env env.random_uuid
    created ← statement env (
        create_password_reset id target.1 (hash_opaque_token env raw)
          (t + env.config.password_reset_ttl) ResetSource.admin)
    require (is_found created) internal_server_error
    statement env (
        create_audit_log (
          audit_row actor target.0 target.1 AuditAction.admin_note
            (some (codes "Password reset link sent by admin"))))
    sent ← send_mail env raw target.0.email
    require sent internal_server_error
