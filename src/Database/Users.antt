-- ===== src/Database/Users.antt =====
-- internal/db/postgres/user.sql.go and the user statements of admin.sql.go
use golang_auth_api.Prelude.{
  ℕ, Bool, true, false, ◌&&◌, Option, none, some, ◌==◌, find, any, update_where, Str, str_eq,
  to_lower,
}
use golang_auth_api.Model.Rows.{UserRole, UserStatus, User, Database}
use golang_auth_api.Platform.{Reply, found}

-- GetUserByID and GetUserByIDAdmin read the same row; neither leaves out deleted accounts.
unfoldable pub get_user_by_id : ℕ → Database → Option User
get_user_by_id id db = find (λ u. u.id == id) db.users

unfoldable pub username_exists : Str → Database → Bool
username_exists name db = any (λ u. str_eq u.username (to_lower name)) db.users

abbrev pub is_none : Option ℕ → Bool
is_none none = true
is_none (some t) = false

unfoldable pub touch_user_last_login : ℕ → ℕ → Database → Reply Unit × Database
touch_user_last_login id now db = (
  found tt,
  record db {
    users =
        update_where (λ u. u.id == id)
          (λ u. record u { last_login = some now; last_seen = some now }) db.users;
  },
)

-- The row of `id`, if the account is not deleted.
abbrev pub is_live : ℕ → User → Bool
is_live id u = u.id == id && is_none u.deleted_at

unfoldable pub set_user_status : UserStatus → ℕ → ℕ → Database → Reply Unit × Database
set_user_status status id now db = (
  found tt,
  record db { users = update_where (is_live id) (λ u. record u { status = some status }) db.users },
)

unfoldable pub set_user_role : UserRole → ℕ → ℕ → Database → Reply Unit × Database
set_user_role role id now db = (
  found tt,
  record db { users = update_where (is_live id) (λ u. record u { role = role }) db.users },
)

unfoldable pub soft_delete_user : ℕ → ℕ → Database → Reply Unit × Database
soft_delete_user id now db = (
  found tt,
  record db {
    users = update_where (is_live id) (λ u. record u { deleted_at = some now }) db.users;
  },
)
