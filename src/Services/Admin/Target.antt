-- ===== src/Services/Admin/Target.antt =====
-- Whom an administrator may act on: what loadAdminTarget has established.
use golang_auth_api.Prelude.{
  ℕ, ◌≡◌, refl, Bool, true, false, not, Option, none, some, if◌then◌else◌, Str, Bool-cases, inl,
  inr, arith,
}
use golang_auth_api.Exec.{holds-bind, err, Result, pure, ◌>>=◌, holds-require, holds-or_raise}
use golang_auth_api.Model.Errors.{ErrorDetail}
use golang_auth_api.Model.Rows.{User, Database}
use golang_auth_api.Platform.{Env, World, Service, failed, reply_of}
use golang_auth_api.Platform.Transactions.{AllOrNothing, AllOrNothing-err, AllOrNothing-ok}
use golang_auth_api.Platform.Frame.{holds-query}
use golang_auth_api.Database.Users.{get_user_by_id}
use golang_auth_api.Services.Admin.{is_admin, is_self, check_target, load_admin_target}

module _ {C : Type 0} (env : Env C) (actor_id target_id : Str) where
  -- The account of the identifier is there, is another one than the actor's, and is no admin's.
  pub record IsTarget (db : Database) (user : User) (pg : ℕ) : Type 0 where
    pub parsed : env.parse_uuid target_id ≡ some pg
    pub not_self : is_self (env.parse_uuid actor_id) pg ≡ false
    pub row : get_user_by_id pg db ≡ some user
    pub not_admin : is_admin user.role ≡ false

  -- The database is as before, and a value is a target.
  abbrev TargetOutcome : Database → Result ErrorDetail (User × ℕ) × World C → Type 0
  TargetOutcome before = AllOrNothing before (λ t db. (db ≡ before) × IsTarget before t.0 t.1)

  check_target-IsTarget :
      (pg : ℕ) (before : Database) (o : Option User) (down : Bool) (w : World C)
      → w.db ≡ before
      → env.parse_uuid target_id ≡ some pg
      → is_self (env.parse_uuid actor_id) pg ≡ false
      → get_user_by_id pg before ≡ o
      → TargetOutcome before
          ((check_target env (if down then failed else reply_of o) >>= λ user. pure (user, pg)) w)
  unfolding check_target ◌>>=◌
  check_target-IsTarget pg before o true w same parsed not_self row = same
  check_target-IsTarget pg before none false w same parsed not_self row = same
  check_target-IsTarget pg before (some user) false w same parsed not_self row =
      elim (Bool-cases (is_admin user.role)) [
        | inl admin ↦ rw admin same
        | inr other ↦
            rw other
              (same, record { parsed = parsed; not_self = not_self; row = row; not_admin = other })
      ]

  false_of : (b : Bool) → not b ≡ true → b ≡ false
  false_of b h = ground arith

-- loadAdminTarget changes nothing in the database, and returns an account only if the identifier
-- parses to another one than the actor's, the row is there, and its role is not that of an admin.
pub load_admin_target-IsTarget :
    {C : Type 0} (env : Env C) (actor_id target_id : Str) (w : World C)
    → AllOrNothing w.db
        (λ t db. (db ≡ w.db) × IsTarget env actor_id target_id w.db t.0 t.1)
        (load_admin_target env actor_id target_id w)
unfolding load_admin_target
load_admin_target-IsTarget env actor_id target_id w =
    let Q = TargetOutcome env actor_id target_id w.db in
    holds-or_raise Q _ _ _ w (λ e. refl)
      (λ pg parsed.
        holds-require Q _ _ _ w (λ e. refl)
          (λ other. holds-query env Q _ _ w (
            check_target-IsTarget env actor_id target_id pg w.db _ (env.db_fails w.calls) _ refl
              parsed (false_of env actor_id target_id _ other) refl)))

-- An action that begins with its target: the error of the target, or the rest with it.
pub holds-target :
    {C B : Type 0} (env : Env C) (actor_id target_id : Str)
    (Q : Result ErrorDetail B × World C → Type 0) (next : User × ℕ → Service C B) (w : World C)
    → ((e : ErrorDetail) (u : World C) → u.db ≡ w.db → Q (err e, u))
    → ((t : User × ℕ) (u : World C)
        → u.db ≡ w.db
        → IsTarget env actor_id target_id w.db t.0 t.1
        → Q (next t u))
    → Q ((load_admin_target env actor_id target_id >>= next) w)
holds-target env actor_id target_id Q next w bad good =
    let P : User × ℕ → Database → Type 0 =
      λ t db. (db ≡ w.db) × IsTarget env actor_id target_id w.db t.0 t.1 in
    let loaded = load_admin_target-IsTarget env actor_id target_id w in
    let ended = load_admin_target env actor_id target_id w in
    holds-bind Q _ next w (λ e ran. bad e ended.1 (AllOrNothing-err w.db P ended loaded ran))
      (λ t ran.
        let (same, target) = AllOrNothing-ok w.db P ended loaded ran in good t ended.1 same target)
