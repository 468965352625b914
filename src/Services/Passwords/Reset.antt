-- ===== src/Services/Passwords/Reset.antt =====
-- The transactions of a password reset and of a password change.
use golang_auth_api.Prelude.{
  ◌≡◌, ◌∙◌, ap, refl, ℕ, some, true, not, ◌&&◌, ◌||◌, ◌==◌, is_some, All, List, [], ◌∷◌, keep,
  update_where, Str, arith,
}
use golang_auth_api.Prelude.Lists.{All-update_where}
use golang_auth_api.Model.Rows.{Session, Database}
use golang_auth_api.Platform.{Env, World}
use golang_auth_api.Platform.Transactions.{
  IsPlain, Atomic, with_tx-Atomic, statement-eq-ok, last-eq-ok,
}
use golang_auth_api.Database.Identities.{update_password_hash}
use golang_auth_api.Database.Sessions.{
  is_active, revoke, revoke_all_user_sessions, revoke_all_other_user_sessions,
}
use golang_auth_api.Database.Sessions.Revocation.{
  UserRevoked, OthersRevoked, revoke_all_user_sessions-UserRevoked, revoke_all_other-OthersRevoked,
}
use golang_auth_api.Database.Resets.{mark_password_reset_used}
use golang_auth_api.Services.Passwords.{complete_password_reset, complete_password_change}

-- Every row of the reset is marked as used.
abbrev pub IsConsumed : ℕ → Database → Type 0
IsConsumed id db = All (λ r. r.id ≡ id → is_some r.used_at ≡ true) db.password_resets

-- The identity has the password hash.
abbrev pub HasHash : ℕ → Str → Database → Type 0
HasHash id hash db = All (λ ai. ai.id ≡ id → ai.password_hash ≡ some hash) db.auth_identities

-- A reset that is done: the token used up, the new hash stored, every session of the user revoked.
pub record IsReset (reset_id identity_id user_id : ℕ) (hash : Str) (db : Database) : Type 0 where
  pub consumed : IsConsumed reset_id db
  pub stored : HasHash identity_id hash db
  pub revoked : UserRevoked user_id db

-- A change that is done: the new hash stored, every other session of the user revoked, the current one,
-- and the sessions of other users, as they were.
pub record IsChanged (identity_id user_id current : ℕ) (hash : Str) (before db : Database)
    : Type 0 where
  pub stored : HasHash identity_id hash db
  pub revoked : OthersRevoked user_id current db
  pub kept :
      keep (λ s. s.id == current || not (s.user_id == user_id)) db.sessions
      ≡ keep (λ s. s.id == current || not (s.user_id == user_id)) before.sessions

mark-IsConsumed : (id t : ℕ) (db : Database) → IsConsumed id (mark_password_reset_used id t db).1
unfolding mark_password_reset_used
mark-IsConsumed id t db =
    All-update_where _ _ _ (λ r h e. refl) (λ r h e. ground arith) db.password_resets

update-HasHash :
    (hash : Str) (id t : ℕ) (db : Database) → HasHash id hash (update_password_hash hash id t db).1
unfolding update_password_hash
update-HasHash hash id t db =
    All-update_where _ _ _ (λ r h e. refl) (λ r h e. ground arith) db.auth_identities

-- The rows that the statement leaves aside.
kept_rows :
    (user_id current t : ℕ) (xs : List Session)
    → keep
        (λ s. s.id == current || not (s.user_id == user_id))
        (update_where
          (λ s. s.user_id == user_id && (not (s.id == current) && is_active s))
          (revoke t)
          xs)
      ≡ keep (λ s. s.id == current || not (s.user_id == user_id)) xs
unfolding keep update_where
kept_rows user_id current t [] = refl
kept_rows user_id current t (x ∷ xs) = ground (arith, kept_rows user_id current t xs)

abbrev kept_sessions : ℕ → ℕ → Database → List Session
kept_sessions user_id current db =
    keep (λ s. s.id == current || not (s.user_id == user_id)) db.sessions

revoke_all_other-kept :
    (user_id current t : ℕ) (db : Database)
    → kept_sessions user_id current (revoke_all_other_user_sessions user_id current t db).1
      ≡ kept_sessions user_id current db
unfolding revoke_all_other_user_sessions
revoke_all_other-kept user_id current t db = kept_rows user_id current t db.sessions

mark-IsPlain : (id : ℕ) → IsPlain (mark_password_reset_used id)
unfolding mark_password_reset_used
mark-IsPlain id = record { at = λ t db. refl }

hash-IsPlain : (hash : Str) (id : ℕ) → IsPlain (update_password_hash hash id)
unfolding update_password_hash
hash-IsPlain hash id = record { at = λ t db. refl }

pub revoke-IsPlain : (id : ℕ) → IsPlain (revoke_all_user_sessions id)
unfolding revoke_all_user_sessions
revoke-IsPlain id = record { at = λ t db. refl }

revoke_other-IsPlain : (id current : ℕ) → IsPlain (revoke_all_other_user_sessions id current)
unfolding revoke_all_other_user_sessions
revoke_other-IsPlain id current = record { at = λ t db. refl }

-- The three statements one after the other.
three_writes-IsReset :
    (reset_id identity_id user_id : ℕ) (hash : Str) (t t' t'' : ℕ) (db : Database)
    → IsReset reset_id identity_id user_id hash
        (revoke_all_user_sessions user_id t''
          (update_password_hash hash identity_id t' (mark_password_reset_used reset_id t db).1).1).1
three_writes-IsReset reset_id identity_id user_id hash t t' t'' db = record {
  consumed =
      unfold update_password_hash in
      unfold revoke_all_user_sessions in mark-IsConsumed reset_id t db;
  stored = unfold revoke_all_user_sessions in update-HasHash hash identity_id t' _;
  revoked = revoke_all_user_sessions-UserRevoked user_id t'' _;
}

-- CompletePasswordReset either fails and leaves the database as it was, or succeeds, and then the
-- reset is used up, the identity has the new hash, and every session of the user is revoked.
pub complete_password_reset-Atomic :
    {C : Type 0} (env : Env C) (reset_id identity_id user_id : ℕ) (hash : Str) (w : World C)
    → Atomic
        (IsReset reset_id identity_id user_id hash)
        w.db
        (complete_password_reset env reset_id identity_id user_id hash w)
unfolding complete_password_reset
complete_password_reset-Atomic env reset_id identity_id user_id hash w =
    with_tx-Atomic env (IsReset reset_id identity_id user_id hash) _ w (λ u same h.
      let (rest, marked) = statement-eq-ok env _ _ u (mark-IsPlain reset_id) h in
      let (last, updated) = statement-eq-ok env _ _ _ (hash-IsPlain hash identity_id) rest in
      let revoked = last-eq-ok env _ _ (revoke-IsPlain user_id) last in
      rw (marked, updated, revoked)
        (three_writes-IsReset reset_id identity_id user_id hash _ _ _ u.db))

-- CompletePasswordChange either fails and leaves the database as it was, or succeeds, and then the
-- identity has the new hash, every session of the user but the current one is revoked, and the rows of
-- the current session and of the sessions of other users are as they were.
pub complete_password_change-Atomic :
    {C : Type 0} (env : Env C) (identity_id user_id current : ℕ) (hash : Str) (w : World C)
    → Atomic
        (IsChanged identity_id user_id current hash w.db)
        w.db
        (complete_password_change env identity_id user_id current hash w)
unfolding complete_password_change
complete_password_change-Atomic env identity_id user_id current hash w =
    with_tx-Atomic env (IsChanged identity_id user_id current hash w.db) _ w (λ u same h.
      let (last, updated) = statement-eq-ok env _ _ u (hash-IsPlain hash identity_id) h in
      let revoked = last-eq-ok env _ _ (revoke_other-IsPlain user_id current) last in
      rw (updated, revoked)
        (record {
          stored = unfold revoke_all_other_user_sessions in update-HasHash hash identity_id _ u.db;
          revoked = revoke_all_other-OthersRevoked user_id current _ _;
          kept =
              unfold update_password_hash in
              revoke_all_other-kept user_id current _ _
              ∙ ap (λ d. kept_sessions user_id current d) same;
        }))
