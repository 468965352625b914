-- ===== src/Services/Enrollment/Pending.antt =====
-- What EnrollMFA leaves: a pending factor with the secret that it returned.
use mathlib.Core.Option.{some-injective}
use golang_auth_api.Prelude.{
  sym, ◌+◌, ◌≡◌, ◌∙◌, ap, refl, ℕ, Bool, true, false, not, Option, none, some, [], ◌∷◌, ◌⊎◌, inl,
  inr, Bool-cases, if◌then◌else◌, any, find, ==-refl, Str,
}
use golang_auth_api.Prelude.Lists.{any-find, find-append_miss, find-update_where}
use golang_auth_api.Exec.{Result, ok, holds-bind, holds-or_raise, ◌>>=◌, ◌>>◌, pure}
use golang_auth_api.Exec.Preserves.{Preserves, preserves_rules}
use golang_auth_api.Model.Errors.{ErrorDetail, mfa_already_enabled, internal_server_error}
use golang_auth_api.Model.Rows.{MfaType, MfaFactor, Database}
use golang_auth_api.Platform.{Env, World, Reply, found, no_rows, failed, reply_of}
use golang_auth_api.Platform.Calls.{draw, statement, is_found}
use golang_auth_api.Platform.Transactions.{AllOrNothing}
use golang_auth_api.Platform.Frame.{
  HasDatabase, calls_frame, holds-query, holds-draw, holds-statement,
}
use golang_auth_api.Database.Mfa.{is_of, get_factor_by_user_id}
use golang_auth_api.Database.Mfa.Enrollment.{
  new_factor, restart_totp, upsert_factor, upsert_pending_totp_factor,
}
use golang_auth_api.Auth.Encryption.{
  HasCryptoLaws, encrypt_mfa_secret, decrypt_mfa_secret, decrypt-encrypt,
}
use golang_auth_api.Services.Common.{text_of, require, attempt-eq-some}
use golang_auth_api.Services.Passwords.Outcome.{Preserves-attempt}
use golang_auth_api.Services.Enrollment.{MfaEnrollResult, require_not_enabled, enroll_mfa}

-- The row of the conflict, changed, or the new row.
abbrev IsUpserted : MfaType → (MfaFactor → MfaFactor) → MfaFactor → ℕ → Database → Type 0
IsUpserted kind change row user_id db =
    (f : MfaFactor) × (get_factor_by_user_id kind user_id db ≡ some f)
    × ((f ≡ row) ⊎ ((old : MfaFactor) × (f ≡ change old)))

upsert-IsUpserted :
    (kind : MfaType) (change : MfaFactor → MfaFactor) (row : MfaFactor) (user_id : ℕ)
    (db : Database)
    → ((f : MfaFactor) → is_of kind user_id (change f) ≡ is_of kind user_id f)
    → is_of kind user_id row ≡ true
    → IsUpserted kind change row user_id (upsert_factor kind change row user_id db)
unfolding upsert_factor get_factor_by_user_id find
upsert-IsUpserted kind change row user_id db keeps fits =
    elim (Bool-cases (any (is_of kind user_id) db.mfa_factors)) [
      | inl there ↦
          (let (old, hit) = any-find (is_of kind user_id) db.mfa_factors there in
            (
              change old,
              rw there (find-update_where (is_of kind user_id) change keeps db.mfa_factors hit),
              inr (old, refl),
            ))
      | inr missing ↦ (
        row,
        rw (missing, find-append_miss (is_of kind user_id) db.mfa_factors (row ∷ []) missing)
            (rw fits refl),
        inl refl,
      )
    ]

-- The pending factor of the user, with the secret that was returned.
pub record IsPending {C : Type 0} (env : Env C) (user_pg : ℕ) (secret : Str) (db : Database)
    : Type 0 where
  pub factor : MfaFactor
  pub of_user : get_factor_by_user_id MfaType.totp user_pg db ≡ some factor
  pub readable : decrypt_mfa_secret env (text_of factor.secret) ≡ some secret
  pub unverified : factor.verified ≡ false
  pub disabled : factor.enabled ≡ false
  pub unused : factor.last_used_step ≡ none

-- The user, whose TOTP factor was not enabled before.
pub record IsEnrolling {C : Type 0} (env : Env C) (user_id secret : Str) (before after : Database)
    : Type 0 where
  pub user_pg : ℕ
  pub parsed : env.parse_uuid user_id ≡ some user_pg
  pub not_enabled :
      (f : MfaFactor)
      → get_factor_by_user_id MfaType.totp user_pg before ≡ some f
      → f.enabled ≡ false
  pub pending : IsPending env user_pg secret after

module _ {C : Type 0} (env : Env C) where
  off : (b : Bool) (w : World C) → (require (not b) mfa_already_enabled w).0 ≡ ok tt → b ≡ false
  unfolding ◌>>=◌
  off true w h = cc
  off false w h = refl

  not_enabled_lem :
      (o : Option MfaFactor) (down : Bool) (w : World C)
      → (require_not_enabled env (if down then failed else reply_of o) w).0 ≡ ok tt
      → (f : MfaFactor) → o ≡ some f
      → f.enabled ≡ false
  unfolding require_not_enabled ◌>>=◌
  not_enabled_lem o true w h f e = cc
  not_enabled_lem none false w h f e = cc
  not_enabled_lem (some g) false w h f e =
      sym (ap (λ x. x.enabled) (some-injective g f e)) ∙ off g.enabled w h

  Preserves-require_not_enabled :
      (d : Database) (r : Reply MfaFactor) → Preserves (HasDatabase d) (require_not_enabled env r)
  unfolding require_not_enabled
  Preserves-require_not_enabled d failed = search preserves_rules
  Preserves-require_not_enabled d no_rows = search preserves_rules
  Preserves-require_not_enabled d (found factor) = search preserves_rules

  Preserves-encrypt :
      (d : Database) (plain : Str) → Preserves (HasDatabase d) (encrypt_mfa_secret env plain)
  unfolding encrypt_mfa_secret
  Preserves-encrypt d plain = search (preserves_rules, calls_frame)

  restarted-IsPending :
      (user_pg : ℕ) (secret stored : Str) (db : Database) (f old : MfaFactor) (t : ℕ)
      → decrypt_mfa_secret env stored ≡ some secret
      → get_factor_by_user_id MfaType.totp user_pg db ≡ some f
      → f ≡ restart_totp stored t old
      → IsPending env user_pg secret db
  restarted-IsPending user_pg secret stored db f old t readable of_user e = record {
    factor = f;
    of_user = of_user;
    readable = ap (λ x. decrypt_mfa_secret env (text_of x.secret)) e ∙ readable;
    unverified = ap (λ x. x.verified) e;
    disabled = ap (λ x. x.enabled) e;
    unused = ap (λ x. x.last_used_step) e;
  }

  upsert-IsPending :
      (user_pg id t : ℕ) (stored secret : Str) (db : Database)
      → decrypt_mfa_secret env stored ≡ some secret
      → IsPending env user_pg secret (upsert_pending_totp_factor id user_pg stored t db).1
  unfolding upsert_pending_totp_factor
  upsert-IsPending user_pg id t stored secret db readable =
      let row = new_factor id user_pg MfaType.totp (some stored) t in
      let (f, of_user, made) =
        upsert-IsUpserted MfaType.totp (restart_totp stored t) row user_pg db (λ f. refl)
          (rw (==-refl user_pg) refl) in
      elim made [
        | inl e ↦ restarted-IsPending user_pg secret stored _ f row t readable of_user e
        | inr (old, e) ↦ restarted-IsPending user_pg secret stored _ f old t readable of_user e
      ]

-- The outcome of EnrollMFA from the state before.
abbrev pub EnrollOutcome :
    {C : Type 0} → Env C → Str → Database → Result ErrorDetail MfaEnrollResult × World C → Type 0
EnrollOutcome env user_id before =
    AllOrNothing before (λ result db. IsEnrolling env user_id result.secret before db)

module _ {C : Type 0} (env : Env C) (user_id : Str) (before : Database) where
  -- The stored secret and the factor.
  store_secret-EnrollOutcome :
      (user_pg : ℕ) (key : Str × Str) (stored : Str) (w : World C)
      → w.db ≡ before
      → env.parse_uuid user_id ≡ some user_pg
      → ((f : MfaFactor)
          → get_factor_by_user_id MfaType.totp user_pg before ≡ some f
          → f.enabled ≡ false)
      → decrypt_mfa_secret env stored ≡ some key.0
      → EnrollOutcome env user_id before (
          (do
            id ← draw env env.random_uuid
            upserted ← statement env (upsert_pending_totp_factor id user_pg stored)
            require (is_found upserted) internal_server_error
            pure (record { secret = key.0; provisioning_uri = key.1 }))
            w)
  unfolding ◌>>=◌ upsert_pending_totp_factor
  store_secret-EnrollOutcome user_pg key stored w same parsed not_enabled readable =
      let Q = EnrollOutcome env user_id before in
      holds-draw env Q _ _ w (
        holds-statement env Q _ _ _ same (record {
          user_pg = user_pg;
          parsed = parsed;
          not_enabled = not_enabled;
          pending =
              upsert-IsPending env user_pg (env.random_uuid w.calls) _ stored key.0 w.db readable;
        }))

-- EnrollMFA either returns an error and leaves the database as it was, or the user had no enabled TOTP
-- factor, and then the user's TOTP factor is pending (neither verified nor enabled, with no time step
-- used) and its stored text decrypts to the secret that was returned, where the cryptography behaves as
-- documented.
pub enroll_mfa-EnrollOutcome :
    {C : Type 0} (env : Env C) (laws : HasCryptoLaws env) (user_id username : Str) (w : World C)
    → EnrollOutcome env user_id w.db (enroll_mfa env user_id username w)
unfolding enroll_mfa
enroll_mfa-EnrollOutcome env laws user_id username w =
    let Q = EnrollOutcome env user_id w.db in
    holds-or_raise Q _ _ _ w (λ missing. refl)
      (λ user_pg parsed. holds-query env Q _ _ w (
        let kept =
          (Preserves-require_not_enabled env w.db _).kept (record w { calls = w.calls + 1 }) refl in
        holds-bind Q _ _ _ (λ e h. kept)
          (λ u allowed. holds-draw env Q _ _ _ (
            holds-or_raise Q _ _ _ _ (λ missing. kept)
              (λ key is_key.
                let kept' =
                  (Preserves-attempt env w.db _ (Preserves-encrypt env w.db key.0)).kept _ kept in
                holds-bind Q _ _ _ (λ e h. kept')
                  (λ encrypted ran.
                    holds-or_raise Q _ _ _ _ (λ missing. kept')
                      (λ stored is_stored.
                        store_secret-EnrollOutcome env user_id w.db user_pg key stored _ kept'
                          parsed (not_enabled_lem env _ (env.db_fails w.calls) _ allowed)
                          (decrypt-encrypt env laws key.0 _
                            (attempt-eq-some _ _ ran is_stored)))))))))
