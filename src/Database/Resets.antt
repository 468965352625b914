-- ===== src/Database/Resets.antt =====
-- internal/db/postgres/password_resets.sql.go
use golang_auth_api.Prelude.{
  ℕ, Bool, ◌&&◌, Option, none, some, List, [], ◌∷◌, ◌++◌, ltb, ◌==◌, if◌then◌else◌, find,
  update_where, Str, str_eq,
}
use golang_auth_api.Model.Rows.{ResetSource, PasswordReset, Database}
use golang_auth_api.Database.Users.{is_none}
use golang_auth_api.Platform.{Reply, found}

-- used_at IS NULL AND expires_at > now()
abbrev pub is_redeemable : Str → ℕ → PasswordReset → Bool
is_redeemable token now r =
    str_eq r.reset_token token && (is_none r.used_at && ltb now r.expires_at)

unfoldable pub get_active_password_reset : Str → ℕ → Database → Option PasswordReset
get_active_password_reset token now db = find (is_redeemable token now) db.password_resets

-- ORDER BY created_at DESC LIMIT 1
unfoldable pub latest_of : ℕ → List PasswordReset → Option ℕ
latest_of user_id [] = none
latest_of user_id (r ∷ rs) =
    let rest = latest_of user_id rs in
    if r.user_id == user_id
    then (elim rest [
      | none ↦ some r.created_at
      | some t ↦ some (if ltb r.created_at t then t else r.created_at)
    ])
    else rest

unfoldable pub get_latest_password_reset_for_user : ℕ → Database → Option ℕ
unfolding latest_of
get_latest_password_reset_for_user id db = latest_of id db.password_resets

-- The identifier of the new row is drawn by the database.
unfoldable pub create_password_reset :
    ℕ → ℕ → Str → ℕ → ResetSource → ℕ → Database → Reply Unit × Database
create_password_reset id user_id token expires source now db = (
  found tt,
  record db {
    password_resets =
        db.password_resets
        ++ record {
          id = id;
          user_id = user_id;
          reset_token = token;
          created_at = now;
          expires_at = expires;
          used_at = none;
          source = source;
        }
          ∷ [];
  },
)

unfoldable pub mark_password_reset_used : ℕ → ℕ → Database → Reply Unit × Database
mark_password_reset_used id now db = (
  found tt,
  record db {
    password_resets =
        update_where (λ r. r.id == id) (λ r. record r { used_at = some now }) db.password_resets;
  },
)
