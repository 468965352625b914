-- ===== src/Database/Passkeys.antt =====
-- internal/db/postgres/webauthn.sql.go. GetUserForWebAuthnLogin reads the row that GetUserByID reads.
use golang_auth_api.Prelude.{
  ℕ, Bool, true, false, not, ◌&&◌, ◌||◌, Option, none, some, List, [], ◌∷◌, ◌++◌, if◌then◌else◌,
  ◌==◌, any, keep, update_where, Str, str_eq,
}
use golang_auth_api.Model.Rows.{WebAuthnCredential, Database}
use golang_auth_api.Platform.{Reply, found}

abbrev pub new_credential : ℕ → ℕ → Str → Option Str → Str → ℕ → WebAuthnCredential
new_credential id user_id credential_id name credential now = record {
  id = id;
  user_id = user_id;
  credential_id = credential_id;
  name = name;
  credential = credential;
  created_at = now;
  last_used_at = none;
}

-- UNIQUE (credential_id): false is a violation of the constraint.
unfoldable pub create_webauthn_credential :
    ℕ → ℕ → Str → Option Str → Str → ℕ → Database → Reply Bool × Database
create_webauthn_credential id user_id credential_id name credential now db =
    if any (λ c. c.id == id || str_eq c.credential_id credential_id) db.webauthn_credentials
    then (found false, db)
    else (
      found true,
      record db {
        webauthn_credentials =
            db.webauthn_credentials
            ++ new_credential id user_id credential_id name credential now ∷ [];
      },
    )

-- ORDER BY created_at, which is the order in which the rows were inserted
unfoldable pub get_webauthn_credentials_by_user_id : ℕ → Database → List WebAuthnCredential
get_webauthn_credentials_by_user_id user_id db =
    keep (λ c. c.user_id == user_id) db.webauthn_credentials

-- WHERE id = … AND user_id = …
abbrev pub is_own : ℕ → ℕ → WebAuthnCredential → Bool
is_own id user_id c = c.id == id && c.user_id == user_id

unfoldable pub rename_webauthn_credential : Str → ℕ → ℕ → ℕ → Database → Reply Unit × Database
rename_webauthn_credential name id user_id now db = (
  found tt,
  record db {
    webauthn_credentials =
        update_where (is_own id user_id) (λ c. record c { name = some name })
          db.webauthn_credentials;
  },
)

unfoldable pub delete_webauthn_credential : ℕ → ℕ → ℕ → Database → Reply Unit × Database
delete_webauthn_credential id user_id now db = (
  found tt,
  record db {
    webauthn_credentials = keep (λ c. not (is_own id user_id c)) db.webauthn_credentials;
  },
)

unfoldable pub update_webauthn_credential : Str → ℕ → ℕ → Database → Reply Unit × Database
update_webauthn_credential credential id now db = (
  found tt,
  record db {
    webauthn_credentials =
        update_where (λ c. c.id == id)
          (λ c. record c { credential = credential; last_used_at = some now })
          db.webauthn_credentials;
  },
)
