-- ===== src/Database/Sessions.antt =====
-- internal/db/postgres/sessions.sql.go and sessions.go
pub mod Revocation
use golang_auth_api.Prelude.{
  ℕ, Bool, true, false, not, ◌&&◌, Option, none, some, List, [], ◌∷◌, ◌++◌, map, if◌then◌else◌,
  ◌==◌, find, any, keep, update_where, Str,
}
use golang_auth_api.Model.Rows.{Session, Database}
use golang_auth_api.Platform.{Reply, found, no_rows, failed}

-- RefreshSessionInput, with the session's identifier parsed
pub record RefreshSessionInput : Type 0 where
  pub session_id : ℕ
  pub user_id : ℕ
  pub expires_at : ℕ
  pub refresh_token_hash : Str
  pub ip : Str
  pub user_agent : Str

-- pgtype.Text{String: s, Valid: s != ""}
abbrev pub text_or_null : Str → Option Str
text_or_null [] = none
text_or_null (c ∷ cs) = some (c ∷ cs)

abbrev pub new_session : RefreshSessionInput → Session
new_session s = record {
  id = s.session_id;
  user_id = s.user_id;
  expires_at = s.expires_at;
  refresh_token_hash = some s.refresh_token_hash;
  rotated_at = none;
  revoked = false;
  revoked_at = none;
  ip = text_or_null s.ip;
  user_agent = text_or_null s.user_agent;
}

-- A second row with the same primary key is refused.
unfoldable pub create_refresh_session : RefreshSessionInput → ℕ → Database → Reply Unit × Database
create_refresh_session s now db =
    if any (λ r. r.id == s.session_id) db.sessions
    then (failed, db)
    else (found tt, record db { sessions = db.sessions ++ new_session s ∷ [] })

unfoldable pub get_refresh_session : ℕ → Database → Option Session
get_refresh_session id db = find (λ s. s.id == id) db.sessions

abbrev pub is_active : Session → Bool
is_active s = not s.revoked

abbrev pub revoke : ℕ → Session → Session
revoke now s = record s { revoked = true; revoked_at = some now }

unfoldable pub revoke_session : ℕ → ℕ → Database → Reply Unit × Database
revoke_session id now db = (
  found tt,
  record db { sessions = update_where (λ s. s.id == id && is_active s) (revoke now) db.sessions },
)

abbrev rotated : Str → ℕ → ℕ → Session → Session
rotated hash expires now s = record s {
  refresh_token_hash = some hash;
  rotated_at = some now;
  expires_at = expires;
}

-- UPDATE … RETURNING: no row if the session is missing or revoked.
unfoldable pub rotate_refresh_session : Str → ℕ → ℕ → ℕ → Database → Reply Unit × Database
rotate_refresh_session hash expires id now db = (
  if any (λ s. s.id == id && is_active s) db.sessions then found tt else no_rows,
  record db {
    sessions = update_where (λ s. s.id == id && is_active s) (rotated hash expires now) db.sessions;
  },
)

unfoldable pub list_active_session_ids : ℕ → Database → List ℕ
list_active_session_ids user_id db =
    map (λ s. s.id) (keep (λ s. s.user_id == user_id && is_active s) db.sessions)

unfoldable pub revoke_all_user_sessions : ℕ → ℕ → Database → Reply Unit × Database
revoke_all_user_sessions user_id now db = (
  found tt,
  record db {
    sessions = update_where (λ s. s.user_id == user_id && is_active s) (revoke now) db.sessions;
  },
)

unfoldable pub revoke_all_other_user_sessions : ℕ → ℕ → ℕ → Database → Reply Unit × Database
revoke_all_other_user_sessions user_id current now db = (
  found tt,
  record db {
    sessions =
        update_where (λ s. s.user_id == user_id && (not (s.id == current) && is_active s))
          (revoke now) db.sessions;
  },
)
