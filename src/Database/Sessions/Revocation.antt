-- ===== src/Database/Sessions/Revocation.antt =====
-- Which sessions the revoking statements leave active.
use golang_auth_api.Prelude.{ℕ, ◌≡◌, ◌≢◌, refl, true, All, arith}
use golang_auth_api.Prelude.Lists.{All-update_where}
use golang_auth_api.Model.Rows.{Database}
use golang_auth_api.Database.Sessions.{
  revoke_session, revoke_all_user_sessions, revoke_all_other_user_sessions,
}

-- Every row of the session is revoked.
abbrev pub SessionRevoked : ℕ → Database → Type 0
SessionRevoked id db = All (λ s. s.id ≡ id → s.revoked ≡ true) db.sessions

-- Every session of the user is revoked, but `current` where one is named.
abbrev pub UserRevoked : ℕ → Database → Type 0
UserRevoked user_id db = All (λ s. s.user_id ≡ user_id → s.revoked ≡ true) db.sessions

abbrev pub OthersRevoked : ℕ → ℕ → Database → Type 0
OthersRevoked user_id current db =
    All (λ s. s.user_id ≡ user_id → s.id ≢ current → s.revoked ≡ true) db.sessions

pub revoke_session-SessionRevoked :
    (id now : ℕ) (db : Database) → SessionRevoked id (revoke_session id now db).1
unfolding revoke_session
revoke_session-SessionRevoked id now db =
    All-update_where _ _ _ (λ s h e. refl) (λ s h e. ground arith) db.sessions

pub revoke_all_user_sessions-UserRevoked :
    (user_id now : ℕ) (db : Database)
    → UserRevoked user_id (revoke_all_user_sessions user_id now db).1
unfolding revoke_all_user_sessions
revoke_all_user_sessions-UserRevoked user_id now db =
    All-update_where _ _ _ (λ s h e. refl) (λ s h e. ground arith) db.sessions

pub revoke_all_other-OthersRevoked :
    (user_id current now : ℕ) (db : Database)
    → OthersRevoked user_id current (revoke_all_other_user_sessions user_id current now db).1
unfolding revoke_all_other_user_sessions
revoke_all_other-OthersRevoked user_id current now db =
    All-update_where _ _ _ (λ s h e d. refl) (λ s h e d. ground arith) db.sessions
