-- ===== src/Tests/Stores.antt =====
-- Runs of the password, administration and session services.
use golang_auth_api.Prelude.{◌≡◌, true, Str, codes}
use golang_auth_api.Model.Rows.{UserStatus, AuditAction}
use golang_auth_api.Platform.Transactions.{Atomic, AllOrNothing}
use golang_auth_api.Services.Passwords.{
  reset_password, complete_password_reset, complete_password_change,
}
use golang_auth_api.Services.Passwords.Reset.{
  IsReset, IsChanged, complete_password_reset-Atomic, complete_password_change-Atomic,
}
use golang_auth_api.Services.Passwords.Outcome.{ResetPasswordOutcome, reset_password-AllOrNothing}
use golang_auth_api.Services.Admin.{
  set_user_status_action, load_admin_target, change_user_role, delete_user,
}
use golang_auth_api.Services.Admin.Roles.{RoleOutcome, change_user_role-AllOrNothing}
use golang_auth_api.Services.Admin.Deletion.{DeletionOutcome, delete_user-AllOrNothing}
use golang_auth_api.Services.Admin.Target.{IsTarget, load_admin_target-IsTarget}
use golang_auth_api.Services.Admin.Outcome.{StatusOutcome, set_user_status_action-AllOrNothing}
use golang_auth_api.Tests.Data.{test_env, test_actor, plain_world}

abbrev new_password : Str
new_password = codes "another horse"

reset_password_example :
    ResetPasswordOutcome test_env
      (codes "reset")
      new_password
      new_password
      plain_world
      (reset_password test_env (codes "reset") new_password new_password plain_world)
reset_password_example =
    reset_password-AllOrNothing test_env (codes "reset") new_password new_password plain_world

complete_password_reset_example :
    Atomic
      (IsReset 41 5 1 new_password)
      plain_world.db
      (complete_password_reset test_env 41 5 1 new_password plain_world)
complete_password_reset_example =
    complete_password_reset-Atomic test_env 41 5 1 new_password plain_world

complete_password_change_example :
    Atomic
      (IsChanged 5 1 11 new_password plain_world.db)
      plain_world.db
      (complete_password_change test_env 5 1 11 new_password plain_world)
complete_password_change_example =
    complete_password_change-Atomic test_env 5 1 11 new_password plain_world

load_admin_target_example :
    AllOrNothing plain_world.db
      (λ t db.
        (db ≡ plain_world.db) × IsTarget test_env (codes "u2") (codes "u1") plain_world.db t.0 t.1)
      (load_admin_target test_env (codes "u2") (codes "u1") plain_world)
load_admin_target_example =
    load_admin_target-IsTarget test_env (codes "u2") (codes "u1") plain_world

set_user_status_action_example :
    StatusOutcome test_env test_actor
      (codes "u1")
      (codes "spam")
      UserStatus.banned
      AuditAction.user_ban
      true
      plain_world.db
      (set_user_status_action test_env test_actor
        (codes "u1")
        (codes "spam")
        UserStatus.banned
        AuditAction.user_ban
        true
        plain_world)
set_user_status_action_example =
    set_user_status_action-AllOrNothing test_env test_actor (codes "u1") (codes "spam")
      UserStatus.banned AuditAction.user_ban true plain_world

change_user_role_example :
    RoleOutcome test_env test_actor
      (codes "u1")
      (codes "moderator")
      plain_world.db
      (change_user_role test_env test_actor (codes "u1") (codes "moderator") plain_world)
change_user_role_example =
    change_user_role-AllOrNothing test_env test_actor (codes "u1") (codes "moderator") plain_world

delete_user_example :
    DeletionOutcome test_env test_actor
      (codes "u1")
      (codes "spam")
      plain_world.db
      (delete_user test_env test_actor (codes "u1") (codes "spam") plain_world)
delete_user_example =
    delete_user-AllOrNothing test_env test_actor (codes "u1") (codes "spam") plain_world
