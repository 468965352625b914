-- ===== src/Database/Identities.antt =====
-- internal/db/postgres/auth_identities.sql.go
use golang_auth_api.Prelude.{
  ℕ, ◌+◌, Bool, true, false, ◌&&◌, Option, none, some, List, [], ◌∷◌, if◌then◌else◌, ◌==◌, find,
  any, update_where, Str, str_eq, to_lower,
}
use golang_auth_api.Model.Rows.{UserRole, UserStatus, ProviderName, User, AuthIdentity, Database}
use golang_auth_api.Platform.{Reply, found, no_rows}

abbrev pub is_email : ProviderName → Bool
is_email ProviderName.email = true
is_email ProviderName.google = false
is_email ProviderName.apple = false

-- GetEmailAuthByEmailRow, GetEmailAuthByUserIDRow
pub record EmailAuth : Type 0 where
  pub user_id : ℕ
  pub username : Str
  pub role : UserRole
  pub status : Option UserStatus
  pub deleted_at : Option ℕ
  pub identity_id : ℕ
  pub password_hash : Option Str
  pub failed_attempts : ℕ
  pub locked_at : Option ℕ

unfoldable pub joined : AuthIdentity → User → EmailAuth
joined ai u = record {
  user_id = u.id;
  username = u.username;
  role = u.role;
  status = u.status;
  deleted_at = u.deleted_at;
  identity_id = ai.id;
  password_hash = ai.password_hash;
  failed_attempts = ai.failed_attempts;
  locked_at = ai.locked_at;
}

abbrev with_user : AuthIdentity → Option User → Option EmailAuth → Option EmailAuth
with_user ai none rest = rest
with_user ai (some u) rest = some (joined ai u)

-- FROM auth_identities ai JOIN users u ON u.id = ai.user_id WHERE …: the first row.
unfoldable pub first_joined :
    (AuthIdentity → Bool) → List User → List AuthIdentity → Option EmailAuth
first_joined p us [] = none
first_joined p us (ai ∷ ais) =
    let rest = first_joined p us ais in
    if p ai then with_user ai (find (λ u. u.id == ai.user_id) us) rest else rest

abbrev pub has_email : Str → AuthIdentity → Bool
has_email email ai = is_email ai.provider && str_eq ai.provider_user_id (to_lower email)

unfoldable pub get_email_auth_by_email : Str → Database → Option EmailAuth
get_email_auth_by_email email db = first_joined (has_email email) db.users db.auth_identities

unfoldable pub get_email_auth_by_user_id : ℕ → Database → Option EmailAuth
get_email_auth_by_user_id id db =
    first_joined (λ ai. is_email ai.provider && ai.user_id == id) db.users db.auth_identities

unfoldable pub is_email_registered : Str → Database → Bool
is_email_registered email db = any (has_email email) db.auth_identities

-- The statements by identity: what is set at which row.
unfoldable pub change_identity : ℕ → (AuthIdentity → AuthIdentity) → Database → Database
change_identity id f db = record db {
  auth_identities = update_where (λ ai. ai.id == id) f db.auth_identities;
}

abbrev attempts_of : Option AuthIdentity → Reply ℕ
attempts_of none = no_rows
attempts_of (some ai) = found ai.failed_attempts

-- UPDATE … RETURNING failed_attempts
unfoldable pub increment_failed_login_attempts : ℕ → ℕ → Database → Reply ℕ × Database
unfolding change_identity
increment_failed_login_attempts id now db =
    let after =
      change_identity id
        (λ ai. record ai { failed_attempts = ai.failed_attempts + 1; last_failed_at = some now })
        db in
    (attempts_of (find (λ ai. ai.id == id) after.auth_identities), after)

unfoldable pub lock_auth_identity : ℕ → ℕ → Database → Reply Unit × Database
unfolding change_identity
lock_auth_identity id now db =
    (found tt, change_identity id (λ ai. record ai { locked_at = some now }) db)

unfoldable pub reset_failed_login_attempts : ℕ → ℕ → Database → Reply Unit × Database
unfolding change_identity
reset_failed_login_attempts id now db = (
  found tt,
  change_identity id
      (λ ai. record ai { failed_attempts = 0; locked_at = none; last_login = some now }) db,
)

unfoldable pub update_password_hash : Str → ℕ → ℕ → Database → Reply Unit × Database
unfolding change_identity
update_password_hash hash id now db =
    (found tt, change_identity id (λ ai. record ai { password_hash = some hash }) db)
