-- ===== src/Services/Login/Soundness.antt =====
-- What a login that returns a result has established.
use golang_auth_api.Prelude.{
  ℕ, ◌+◌, ◌≤◌, ◌≡◌, refl, Bool, true, false, Option, none, some, is_some, Bool-cases, inl, inr,
  if◌then◌else◌, Str, arith,
}
use golang_auth_api.Exec.{ok, err, raise, ◌>>=◌, ◌>>◌, bind-eq-ok, raise-ne-ok}
use golang_auth_api.Exec.Outcome.{
  Always, NeverFails, IfOk, Always-raise, Always-if, Always-IfOk, Always-fails, IfOk-elim,
  outcome_rules,
}
use golang_auth_api.Model.Errors.{
  ErrorDetail, invalid_credentials, internal_server_error, account_locked,
}
use golang_auth_api.Model.Rows.{LoginOutcome, is_blocked}
use golang_auth_api.Platform.{Env, World, Reply, found, no_rows, failed, reply_of}
use golang_auth_api.Platform.Calls.{now, query}
use golang_auth_api.Platform.CallLaws.{calls_return}
use golang_auth_api.Database.Identities.{EmailAuth, get_email_auth_by_email}
use golang_auth_api.Auth.Password.{verify_password_phc}
use golang_auth_api.Services.Common.{
  RequestMeta, record_login_attempt, NeverFails-record_login_attempt,
}
use golang_auth_api.Services.Login.{
  LoginResult, is_malformed, normalized, stored_hash, login, login_reply, login_identity, is_locked,
  check_password, password_verified, wrong_password, lock_if_exhausted,
}

module _ {C : Type 0} (env : Env C) (meta : RequestMeta) (password : Str) where
  abbrev pub IsUnlockedAt : ℕ → Option ℕ → Type 0
  IsUnlockedAt t none = Unit {0}
  IsUnlockedAt t (some at) = at + env.config.login_lock_duration ≤ t

  lock_if_exhausted-returns :
      (identity : EmailAuth) (r : Reply ℕ)
      → NeverFails (lock_if_exhausted env meta password identity r)
  unfolding lock_if_exhausted
  lock_if_exhausted-returns identity (found n) = search (outcome_rules, calls_return)
  lock_if_exhausted-returns identity no_rows = search outcome_rules
  lock_if_exhausted-returns identity failed = search outcome_rules

  wrong_password-fails :
      (identity : EmailAuth)
      → Always (λ r. r ≡ err invalid_credentials) (wrong_password env meta password identity)
  unfolding wrong_password
  wrong_password-fails identity =
      search
        (outcome_rules, calls_return, NeverFails-record_login_attempt, lock_if_exhausted-returns)

  check_password-IfOk :
      (identity : EmailAuth) (v : Option Bool)
      → Always
          (IfOk ((v ≡ some true) × (is_blocked identity.status ≡ false)))
          (check_password env meta password identity v)
  unfolding check_password password_verified
  check_password-IfOk identity none = Always-raise internal_server_error tt
  check_password-IfOk identity (some false) =
      Always-fails _ invalid_credentials (wrong_password-fails identity)
  check_password-IfOk identity (some true) =
      Always-if _ _ _
        (λ blocked. search (outcome_rules, calls_return, NeverFails-record_login_attempt))
        (λ usable. Always-IfOk _ (refl, usable))

  -- What the password step has checked of the identity, at time `t`.
  pub record IsAuthenticated (t : ℕ) (identity : EmailAuth) : Type 0 where
    pub not_deleted : identity.deleted_at ≡ none
    pub unlocked : IsUnlockedAt t identity.locked_at
    pub verified : verify_password_phc env password (stored_hash identity) true ≡ some true
    pub usable : is_blocked identity.status ≡ false

  -- The lock test at the clock of `w`.
  is_locked-IsUnlockedAt :
      (identity : EmailAuth) (at : Option ℕ) (w : World C)
      → (is_locked env meta password identity at w).0 ≡ ok false
      → IsUnlockedAt (env.clock w.calls) at
  unfolding is_locked now ◌>>=◌
  is_locked-IsUnlockedAt identity none w h = tt
  is_locked-IsUnlockedAt identity (some at) w h = ground arith

  not_some : {A : Type 0} (o : Option A) → is_some o ≡ false → o ≡ none
  not_some none h = refl
  not_some (some a) h = cc

  -- Logging an attempt and returning an error yields no result.
  logged_fails :
      (user_id identity_id : Option ℕ) (outcome : LoginOutcome) (e : ErrorDetail)
      → Always {A = LoginResult}
          (IfOk ⊥)
          (do record_login_attempt env meta user_id identity_id outcome; raise e)
  logged_fails user_id identity_id outcome e =
      search (outcome_rules, NeverFails-record_login_attempt)

  unlocked_gate :
      (identity : EmailAuth) (locked : Bool) (v : Option Bool) (w : World C) {r : LoginResult}
      → ((if locked
            then (do
              record_login_attempt env meta
                  (some identity.user_id)
                  (some identity.identity_id)
                  LoginOutcome.locked
              raise account_locked)
            else check_password env meta password identity v)
          w).0
        ≡ ok r
      → (locked ≡ false) × (v ≡ some true) × (is_blocked identity.status ≡ false)
  unlocked_gate identity true v w h = absurd (IfOk-elim ((logged_fails _ _ _ _).at w) h)
  unlocked_gate identity false v w h =
      let checked = IfOk-elim ((check_password-IfOk identity v).at w) h in
      (refl, checked.0, checked.1)

  login_identity-IsAuthenticated :
      (identity : EmailAuth) (w : World C) {r : LoginResult}
      → (login_identity env meta password identity w).0 ≡ ok r
      → IsAuthenticated (env.clock w.calls) identity
  unfolding login_identity
  login_identity-IsAuthenticated identity w h = elim (Bool-cases (is_some identity.deleted_at)) [
    | inl deleted ↦ absurd (IfOk-elim ((logged_fails _ _ _ _).at w) (rw deleted at h))
    | inr present ↦
        let (locked, read, rest) = bind-eq-ok _ _ w (rw present at h) in
        let (unlocked, verified, usable) = unlocked_gate identity locked _ _ rest in
        record {
          not_deleted = not_some _ present;
          unlocked = is_locked-IsUnlockedAt identity identity.locked_at w (rw unlocked at read);
          verified = verified;
          usable = usable;
        }
  ]

  login_reply-IsAuthenticated :
      (o : Option EmailAuth) (down : Bool) (w : World C) {r : LoginResult}
      → (login_reply env meta password (if down then failed else reply_of o) w).0 ≡ ok r
      → (identity : EmailAuth) × (o ≡ some identity) × IsAuthenticated (env.clock w.calls) identity
  unfolding login_reply
  login_reply-IsAuthenticated o true w h = absurd (raise-ne-ok internal_server_error w h)
  login_reply-IsAuthenticated none false w h = absurd (IfOk-elim ((logged_fails _ _ _ _).at w) h)
  login_reply-IsAuthenticated (some identity) false w h =
      (identity, refl, login_identity-IsAuthenticated identity w h)

-- A login that returns a result, tokens or an MFA challenge, found the email identity of the
-- trimmed and lower-cased address, whose account is not deleted, not banned or disabled, and not
-- within its lock window, and the password verifies against its stored hash.
pub login-IsAuthenticated :
    {C : Type 0} (env : Env C) (meta : RequestMeta) (email password : Str) (w : World C)
    {r : LoginResult}
    → (login env meta email password w).0 ≡ ok r
    → (identity : EmailAuth) × (get_email_auth_by_email (normalized email) w.db ≡ some identity)
      × IsAuthenticated env meta password (env.clock (w.calls + 1)) identity
unfolding login query ◌>>=◌
login-IsAuthenticated env meta email password w h =
    elim (Bool-cases (is_malformed email password)) [
      | inl bad ↦ absurd (raise-ne-ok invalid_credentials w (rw bad at h))
      | inr good ↦
          login_reply-IsAuthenticated env meta password _ (env.db_fails w.calls) _ (rw good at h)
    ]
