-- ===== src/Services/Admin/Listing.antt =====
-- internal/services/admin_service.go: the listings. Their rows are turned into JSON as they are.
pub mod Pages
use golang_auth_api.Prelude.{
  ℕ, Bool, ltb, leb, Option, none, some, List, if◌then◌else◌, Str, trim_space, is_empty,
}
use golang_auth_api.Prelude.Integers.{ℤ, pos, negsuc, int32}
use golang_auth_api.Exec.{pure, raise, ◌>>=◌}
use golang_auth_api.Model.Errors.{
  ErrorDetail, internal_server_error, invalid_payload, invalid_role, user_not_found,
}
use golang_auth_api.Model.Rows.{UserStatus, UserRole, User, AuditLog}
use golang_auth_api.Platform.{Env, Service, Reply, found, no_rows, failed, reply_of}
use golang_auth_api.Platform.Calls.{query}
use golang_auth_api.Database.Sessions.{text_or_null}
use golang_auth_api.Database.Users.{get_user_by_id}
use golang_auth_api.Database.Listing.{
  UserFilter, list_users, count_users, list_audit_logs, count_audit_logs,
}
use golang_auth_api.Services.Common.{must_find, or_raise}
use golang_auth_api.Services.Admin.{parse_user_status, parse_user_role}

-- defaultAdminPageLimit, maxAdminPageLimit
abbrev pub default_admin_page_limit : ℕ
default_admin_page_limit = 25

abbrev pub max_admin_page_limit : ℕ
max_admin_page_limit = 100

unfoldable pub page_limit : ℤ → ℕ
page_limit (negsuc n) = default_admin_page_limit
page_limit (pos n) =
    if leb n 0
    then default_admin_page_limit
    else if ltb max_admin_page_limit n
    then default_admin_page_limit
    else n

unfoldable pub page_offset : ℤ → ℕ
page_offset (negsuc n) = 0
page_offset (pos n) = n

-- AdminListUsersParams
pub record AdminListUsersParams : Type 0 where
  pub search : Str
  pub status : Str
  pub role : Str
  pub limit : ℤ
  pub offset : ℤ

abbrev pub filter_of : AdminListUsersParams → Option UserStatus → Option UserRole → UserFilter
filter_of params status role = record {
  search = text_or_null (trim_space params.search);
  status = status;
  role = role;
}

-- AdminListUsersResult and AdminListAuditLogsResult
pub record Listed (A : Type 0) : Type 0 where
  pub rows : List A
  pub total : ℕ

module _ {C : Type 0} (env : Env C) where
  -- A filter that is empty is none; one that does not parse is an error.
  unfoldable pub parse_filter :
      {A : Type 0} → (Str → Option A) → ErrorDetail → Str → Service C (Option A)
  parse_filter parse e s =
      if is_empty s then pure none else (do a ← or_raise (parse s) e; pure (some a))

  -- ListUsers
  unfoldable pub list_users_page : AdminListUsersParams → Service C (Listed User)
  unfolding parse_filter page_limit page_offset
  list_users_page params = do
    status ← parse_filter parse_user_status invalid_payload (trim_space params.status)
    role ← parse_filter parse_user_role invalid_role (trim_space params.role)
    let filter = filter_of params status role
    listed ← query env (λ t db.
        list_users filter (int32 (page_limit params.limit)) (int32 (page_offset params.offset)) db)
    rows ← must_find listed
    counted ← query env (λ t db. count_users filter db)
    total ← must_find counted
    pure (record { rows = rows; total = total })

  -- ErrNoRows is an unknown user.
  unfoldable pub must_find_user : Reply User → Service C User
  must_find_user (found user) = pure user
  must_find_user no_rows = raise user_not_found
  must_find_user failed = raise internal_server_error

  -- GetUser
  unfoldable pub get_user : Str → Service C User
  unfolding must_find_user
  get_user target_id = do
    target_pg ← or_raise (env.parse_uuid target_id) user_not_found
    reply ← query env (λ t db. reply_of (get_user_by_id target_pg db))
    must_find_user reply

  -- ListAuditLogs
  unfoldable pub list_audit_logs_page : Str → ℤ → ℤ → Service C (Listed AuditLog)
  unfolding page_limit page_offset
  list_audit_logs_page target_id limit offset = do
    target ← parse_filter env.parse_uuid user_not_found target_id
    listed ←
        query env (λ t db.
          list_audit_logs target (int32 (page_limit limit)) (int32 (page_offset offset)) db)
    rows ← must_find listed
    counted ← query env (λ t db. count_audit_logs target db)
    total ← must_find counted
    pure (record { rows = rows; total = total })
