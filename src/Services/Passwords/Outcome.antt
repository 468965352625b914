-- ===== src/Services/Passwords/Outcome.antt =====
-- A password reset as a whole: all of its changes, or an error and none.
use golang_auth_api.Prelude.{
  sym, ap, ◌∙◌, ◌≡◌, ◌+◌, refl, ℕ, List, [], ◌∷◌, Bool, true, false, not, Option, none, some, inl,
  inr, if◌then◌else◌, Str, str_eq, trim_space,
}
use golang_auth_api.Exec.{
  Exec, Result, ok, ◌>>=◌, ◌>>◌, holds-bind, holds-require, holds-or_raise, require,
}
use golang_auth_api.Exec.Preserves.{Preserves, preserves_rules}
use golang_auth_api.Exec.Outcome.{NeverFails, outcome_rules}
use golang_auth_api.Model.Errors.{ErrorDetail, internal_server_error}
use golang_auth_api.Model.Rows.{PasswordReset, Database}
use golang_auth_api.Platform.{Env, World, failed, reply_of}
use golang_auth_api.Platform.Transactions.{
  Atomic, Atomic-map, AllOrNothing, raise-AllOrNothing, AllOrNothing-map,
}
use golang_auth_api.Platform.Frame.{HasDatabase, calls_frame, holds-query}
use golang_auth_api.Database.Identities.{EmailAuth, get_email_auth_by_user_id}
use golang_auth_api.Database.Resets.{get_active_password_reset}
use golang_auth_api.Auth.Validations.{is_valid_password}
use golang_auth_api.Auth.Session.{NeverFails-delete_session, delete_session}
use golang_auth_api.Auth.Jwt.{hash_opaque_token}
use golang_auth_api.Auth.Password.{hash_password_phc}
use golang_auth_api.Services.Common.{attempt, attempt-eq-some}
use golang_auth_api.Services.Passwords.{
  is_unusable, delete_sessions, complete_password_reset, reset_identity, reset_with, reset_password,
}
use golang_auth_api.Services.Passwords.Reset.{IsReset, complete_password_reset-Atomic}

module _ {C : Type 0} (env : Env C) where
  pub Preserves-attempt :
      {A E : Type 0} (d : Database) (m : Exec (World C) Unit A)
      → Preserves (HasDatabase d) m
      → Preserves (HasDatabase d) (attempt {E = E} m)
  unfolding attempt
  Preserves-attempt d m keeps = record { kept = keeps.kept }

  pub Preserves-hash :
      (d : Database) (password : Str) → Preserves (HasDatabase d) (hash_password_phc env password)
  unfolding hash_password_phc
  Preserves-hash d password = search (preserves_rules, calls_frame)

  pub Preserves-delete_sessions :
      {E : Type 0} (d : Database) (ids : List ℕ)
      → Preserves (HasDatabase d) (delete_sessions env {E = E} ids)
  unfolding delete_sessions delete_session
  Preserves-delete_sessions d [] = search preserves_rules
  Preserves-delete_sessions {E} d (id ∷ ids) =
      let rest = Preserves-delete_sessions {E = E} d ids in search (preserves_rules, calls_frame)

  pub delete_sessions-returns :
      {E : Type 0} (ids : List ℕ) → NeverFails (delete_sessions env {E = E} ids)
  unfolding delete_sessions
  delete_sessions-returns [] = search outcome_rules
  delete_sessions-returns {E} (id ∷ ids) =
      let rest = delete_sessions-returns {E = E} ids in
      search (outcome_rules, NeverFails-delete_session)

  -- After a transaction: its failure is an internal error, and the cleanup of Redis keeps its result.
  pub committed-AllOrNothing :
      (P : Database → Type 0) (before : Database) (m : Exec (World C) ErrorDetail Bool)
      (ids : List ℕ) (w : World C)
      → Atomic P before (m w)
      → AllOrNothing before
          (λ u. P)
          ((m >>= λ done. require done internal_server_error >> delete_sessions env ids) w)
  unfolding ◌>>=◌
  committed-AllOrNothing P before m ids w (inl (refused, same)) = rw refused same
  committed-AllOrNothing P before m ids w (inr (done, h)) =
      let (u, cleaned) = (delete_sessions-returns {E = ErrorDetail} ids).at (m w).1 in
      let kept = (Preserves-delete_sessions {E = ErrorDetail} (m w).1.db ids).kept (m w).1 refl in
      rw (done, cleaned, kept) h

  -- The reset of an account, from the row of its token: the identity that is there, and the hash of
  -- the new password.
  pub record IsResetBy (new_password : Str) (reset : PasswordReset) (before after : Database)
      : Type 0 where
    pub identity : EmailAuth
    pub of_user : get_email_auth_by_user_id reset.user_id before ≡ some identity
    pub usable : not (is_unusable identity) ≡ true
    pub hash : Str
    pub hashed_at : World C
    pub hashed : (hash_password_phc env new_password hashed_at).0 ≡ ok hash
    pub done : IsReset reset.id identity.identity_id reset.user_id hash after

  module _ (new_password : Str) (reset : PasswordReset) (before : Database) where
    abbrev ResetOutcome : Result ErrorDetail (Unit {0}) × World C → Type 0
    ResetOutcome = AllOrNothing before (λ u. IsResetBy new_password reset before)

    commit_reset-AllOrNothing :
        (identity : EmailAuth) (hash : Str) (hashed_at w : World C) (ids : List ℕ)
        → w.db ≡ before
        → get_email_auth_by_user_id reset.user_id before ≡ some identity
        → not (is_unusable identity) ≡ true
        → (hash_password_phc env new_password hashed_at).0 ≡ ok hash
        → ResetOutcome (
            (complete_password_reset env reset.id identity.identity_id reset.user_id hash
                >>= λ done. require done internal_server_error >> delete_sessions env ids)
              w)
    commit_reset-AllOrNothing identity hash hashed_at w ids same lookup usable hashed =
        committed-AllOrNothing (IsResetBy new_password reset before) before _ ids w (
          Atomic-map (IsReset reset.id identity.identity_id reset.user_id hash)
            (IsResetBy new_password reset before) w.db before
            (complete_password_reset env reset.id identity.identity_id reset.user_id hash w) same
            (λ db done. record {
              identity = identity;
              of_user = lookup;
              usable = usable;
              hash = hash;
              hashed_at = hashed_at;
              hashed = hashed;
              done = done;
            })
            (complete_password_reset-Atomic env reset.id identity.identity_id reset.user_id hash w))

    reset_identity-AllOrNothing :
        (o : Option EmailAuth) (down : Bool) (w : World C)
        → w.db ≡ before
        → get_email_auth_by_user_id reset.user_id before ≡ o
        → ResetOutcome
            (reset_identity env new_password reset (if down then failed else reply_of o) w)
    unfolding reset_identity
    reset_identity-AllOrNothing o true w same lookup = raise-AllOrNothing before _ _ w same
    reset_identity-AllOrNothing none false w same lookup = raise-AllOrNothing before _ _ w same
    reset_identity-AllOrNothing (some identity) false w same lookup =
        let kept = (Preserves-attempt before _ (Preserves-hash before new_password)).kept w same in
        holds-require ResetOutcome _ _ _ w (λ unusable. same)
          (λ usable.
            holds-bind ResetOutcome _ _ w (λ e h. kept)
              (λ hashed ran.
                holds-or_raise ResetOutcome _ _ _ _ (λ missing. kept)
                  (λ hash found_hash. holds-query env ResetOutcome _ _ _ (
                    commit_reset-AllOrNothing identity hash w _ _ kept lookup usable
                      (attempt-eq-some _ w ran found_hash)))))

  -- A redeemable row with the hash of the trimmed token, and a valid new password.
  pub record IsResetFor (raw_token new_password : Str) (t : ℕ) (before after : Database)
      : Type 0 where
    pub reset : PasswordReset
    pub redeemed :
        get_active_password_reset (hash_opaque_token env (trim_space raw_token)) t before
        ≡ some reset
    pub valid : is_valid_password new_password ≡ true
    pub done : IsResetBy new_password reset before after

  reset_with-AllOrNothing :
      (raw_token new_password : Str) (t : ℕ) (before : Database) (o : Option PasswordReset)
      (down : Bool) (w : World C)
      → w.db ≡ before
      → get_active_password_reset (hash_opaque_token env (trim_space raw_token)) t before ≡ o
      → is_valid_password new_password ≡ true
      → AllOrNothing before
          (λ u. IsResetFor raw_token new_password t before)
          (reset_with env new_password (if down then failed else reply_of o) w)
  unfolding reset_with
  reset_with-AllOrNothing raw_token new_password t before o true w same lookup valid =
      raise-AllOrNothing before _ _ w same
  reset_with-AllOrNothing raw_token new_password t before none false w same lookup valid =
      raise-AllOrNothing before _ _ w same
  reset_with-AllOrNothing raw_token new_password t before (some reset) false w same lookup valid =
      holds-query env (AllOrNothing before (λ u. IsResetFor raw_token new_password t before)) _ _ w
        (AllOrNothing-map (IsResetBy new_password reset before)
          (IsResetFor raw_token new_password t before) before
          (reset_identity env new_password reset
            (if env.db_fails w.calls
              then failed
              else reply_of (get_email_auth_by_user_id reset.user_id w.db))
            (record w { calls = w.calls + 1 }))
          (λ db done. record { reset = reset; redeemed = lookup; valid = valid; done = done })
          (reset_identity-AllOrNothing new_password reset before _ (env.db_fails w.calls) _ same
            (ap (get_email_auth_by_user_id reset.user_id) (sym same) ∙ refl)))

-- A confirmed reset, from the state before.
abbrev pub ResetPasswordOutcome :
    {C : Type 0}
    → Env C
    → Str
    → Str
    → Str
    → World C
    → Result ErrorDetail (Unit {0}) × World C
    → Type 0
ResetPasswordOutcome env raw_token new_password confirm w = AllOrNothing w.db (λ u db.
    (str_eq new_password confirm ≡ true)
    × IsResetFor env raw_token new_password (env.clock w.calls) w.db db)

-- ResetPassword either returns an error and leaves the database as it was, or the token is that of an
-- unused reset that has not expired, the password is valid and equal to its confirmation, the account
-- is neither deleted nor banned or disabled, and then the reset is used up, the identity has the hash
-- of the new password, and every session of the user is revoked.
pub reset_password-AllOrNothing :
    {C : Type 0} (env : Env C) (raw_token new_password confirm : Str) (w : World C)
    → ResetPasswordOutcome env raw_token new_password confirm w
        (reset_password env raw_token new_password confirm w)
unfolding reset_password
reset_password-AllOrNothing env raw_token new_password confirm w =
    let Q = ResetPasswordOutcome env raw_token new_password confirm w in
    holds-require Q _ _ _ w (λ e. refl)
      (λ given.
        holds-require Q _ _ _ w (λ e. refl)
          (λ valid.
            holds-require Q _ _ _ w (λ e. refl)
              (λ confirmed. holds-query env Q _ _ w (
                AllOrNothing-map (IsResetFor env raw_token new_password (env.clock w.calls) w.db)
                  (λ db.
                    (str_eq new_password confirm ≡ true)
                    × IsResetFor env raw_token new_password (env.clock w.calls) w.db db)
                  w.db
                  (reset_with env new_password
                    (if env.db_fails w.calls
                      then failed
                      else reply_of (
                          get_active_password_reset (hash_opaque_token env (trim_space raw_token))
                            (env.clock w.calls) w.db))
                    (record w { calls = w.calls + 1 }))
                  (λ db done. (confirmed, done))
                  (reset_with-AllOrNothing env raw_token new_password _ w.db _
                    (env.db_fails w.calls) _ refl refl valid)))))
