-- ===== src/Database/Accounts.antt =====
-- The inserts of internal/db/postgres/user.sql.go, auth_identities.sql.go and sso.sql.go, with the
-- constraints of db/migrations/001_init.up.sql: a row that breaks one is refused.
use golang_auth_api.Prelude.{
  ℕ, Bool, true, false, not, ◌&&◌, ◌||◌, Option, none, some, [], ◌∷◌, ◌++◌, if◌then◌else◌, ◌==◌,
  leb, length, any, find, Str, str_eq, to_lower,
}
use golang_auth_api.Model.Rows.{
  UserStatus, UserRole, UserOrigin, ProviderName, User, AuthIdentity, Database,
}
use golang_auth_api.Platform.{Reply, found, failed}
use golang_auth_api.Auth.Validations.{is_alnum, is_username_rest}
use golang_auth_api.Database.Identities.{EmailAuth, first_joined}

-- CHECK (username_display ~ '^[A-Za-z0-9](?:[A-Za-z0-9._]{0,28}[A-Za-z0-9])?$')
unfoldable pub is_username_display : Str → Bool
is_username_display [] = false
is_username_display (c ∷ []) = is_alnum c
is_username_display (c ∷ d ∷ cs) =
    is_alnum c && (leb (length (d ∷ cs)) 29 && is_username_rest (d ∷ cs))

abbrev pub new_user : ℕ → Str → Str → Option UserOrigin → User
new_user id email username_display origin = record {
  id = id;
  email = to_lower email;
  username = to_lower username_display;
  username_display = username_display;
  status = some UserStatus.active;
  role = UserRole.user;
  origin = origin;
  last_login = none;
  last_seen = none;
  deleted_at = none;
}

-- The primary key, UNIQUE (email) and UNIQUE (username)
abbrev pub is_user_conflict : User → User → Bool
is_user_conflict row u =
    u.id == row.id || (str_eq u.email row.email || str_eq u.username row.username)

unfoldable pub insert_user : User → Database → Reply User × Database
insert_user row db =
    if any (is_user_conflict row) db.users || not (is_username_display row.username_display)
    then (failed, db)
    else (found row, record db { users = db.users ++ row ∷ [] })

-- CreateUser, for a new identifier
unfoldable pub create_user : ℕ → Str → Str → ℕ → Database → Reply User × Database
unfolding insert_user
create_user id email username_display now db =
    insert_user (new_user id email username_display (some UserOrigin.email)) db

unfoldable pub create_sso_user : ℕ → Str → Str → UserOrigin → ℕ → Database → Reply User × Database
unfolding insert_user
create_sso_user id email username_display origin now db =
    insert_user (new_user id email username_display (some origin)) db

abbrev pub new_identity : ℕ → ℕ → ProviderName → Str → Option Str → AuthIdentity
new_identity id user_id provider provider_user_id hash = record {
  id = id;
  user_id = user_id;
  provider = provider;
  provider_user_id = provider_user_id;
  password_hash = hash;
  failed_attempts = 0;
  last_failed_at = none;
  locked_at = none;
  last_login = none;
}

abbrev pub same_provider : ProviderName → ProviderName → Bool
same_provider ProviderName.email ProviderName.email = true
same_provider ProviderName.google ProviderName.google = true
same_provider ProviderName.apple ProviderName.apple = true
same_provider _ _ = false

-- The primary key and UNIQUE (provider, provider_user_id)
abbrev pub is_identity_conflict : AuthIdentity → AuthIdentity → Bool
is_identity_conflict row ai =
    ai.id == row.id
    || (same_provider ai.provider row.provider && str_eq ai.provider_user_id row.provider_user_id)

unfoldable pub insert_identity : AuthIdentity → Database → Reply ℕ × Database
insert_identity row db =
    if any (is_identity_conflict row) db.auth_identities
    then (failed, db)
    else (found row.id, record db { auth_identities = db.auth_identities ++ row ∷ [] })

-- CreateEmailAuth, for a new identifier
unfoldable pub create_email_auth : ℕ → ℕ → Str → Str → ℕ → Database → Reply ℕ × Database
unfolding insert_identity
create_email_auth id user_id email hash now db =
    insert_identity (new_identity id user_id ProviderName.email (to_lower email) (some hash)) db

unfoldable pub create_sso_identity : ℕ → ℕ → ProviderName → Str → ℕ → Database → Reply ℕ × Database
unfolding insert_identity
create_sso_identity id user_id provider provider_user_id now db =
    insert_identity (new_identity id user_id provider provider_user_id none) db

-- GetIdentityByProvider; the row has no password and no lock.
unfoldable pub get_identity_by_provider : ProviderName → Str → Database → Option EmailAuth
get_identity_by_provider provider provider_user_id db =
    first_joined
      (λ ai. same_provider ai.provider provider && str_eq ai.provider_user_id provider_user_id)
      db.users db.auth_identities

abbrev id_of : Option User → Option ℕ
id_of none = none
id_of (some u) = some u.id

unfoldable pub get_user_id_by_email : Str → Database → Option ℕ
get_user_id_by_email email db =
    id_of (find (λ u. str_eq (to_lower u.email) (to_lower email)) db.users)
