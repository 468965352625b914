-- ===== src/Services/Passkeys/Owner.antt =====
-- Removing a passkey: only one's own, and only with the password.
use mathlib.Core.Path.{subst}
use golang_auth_api.Prelude.{
  Bool, Bool-cases, Option, Str, any, ap, codes, false, if◌then◌else◌, inl, inr, keep, none, not,
  refl, some, true, ℕ, ◌+◌, ◌==◌, ◌∙◌, ◌≡◌,
}
use golang_auth_api.Exec.{
  Result, ok, raise-ne-ok, or_raise-eq-ok, ◌>>=◌, ◌>>◌, pure, require, pure-eq-ok, holds-bind,
  holds-require, holds-or_raise,
}
use golang_auth_api.Exec.Preserves.{Preserves, preserves_rules}
use golang_auth_api.Model.Errors.{ErrorDetail, internal_server_error, invalid_credentials}
use golang_auth_api.Model.Rows.{Database}
use golang_auth_api.Platform.{Env, World, Reply, found, no_rows, failed, reply_of}
use golang_auth_api.Platform.Calls.{statement, is_found}
use golang_auth_api.Platform.CallLaws.{query-bind}
use golang_auth_api.Platform.Transactions.{AllOrNothing}
use golang_auth_api.Platform.Frame.{HasDatabase, calls_frame}
use golang_auth_api.Database.Identities.{EmailAuth, get_email_auth_by_user_id}
use golang_auth_api.Auth.Password.{verify_password_phc}
use golang_auth_api.Services.Login.{stored_hash}
use golang_auth_api.Database.Logs.{create_audit_log}
use golang_auth_api.Database.Passkeys.{
  is_own, get_webauthn_credentials_by_user_id, delete_webauthn_credential,
}
use golang_auth_api.Services.Mfa.{check_current, verify_current_password}
use golang_auth_api.Services.Passkeys.{user_owns_passkey, passkey_audit, delete_passkey}

-- The rows after the deletion: all but the passkey, which was one of the user's.
pub record IsRemoved {C : Type 0} (env : Env C) (user_id current passkey_id : Str) (w : World C)
    (later : Database) : Type 0 where
  pub user_pg : ℕ
  pub passkey_pg : ℕ
  pub is_user : env.parse_uuid user_id ≡ some user_pg
  pub is_passkey : env.parse_uuid passkey_id ≡ some passkey_pg
  pub identity : EmailAuth
  pub of_user : get_email_auth_by_user_id user_pg w.db ≡ some identity
  pub verified : verify_password_phc env current (stored_hash identity) true ≡ some true
  pub owned :
      any (λ c. c.id == passkey_pg) (get_webauthn_credentials_by_user_id user_pg w.db) ≡ true
  pub removed :
      later.webauthn_credentials
      ≡ keep (λ c. not (is_own passkey_pg user_pg c)) w.db.webauthn_credentials

module _ {C : Type 0} (env : Env C) where
  require-true :
      (verified : Bool) (w : World C)
      → (require verified invalid_credentials w).0 ≡ ok tt
      → verified ≡ true
  require-true true w h = refl
  require-true false w h = absurd (raise-ne-ok invalid_credentials w h)

  check_current-verified :
      (current : Str) (o : Option EmailAuth) (down : Bool) (w : World C)
      → (check_current env current (if down then failed else reply_of o) w).0 ≡ ok tt
      → (identity : EmailAuth) × (o ≡ some identity)
        × (verify_password_phc env current (stored_hash identity) true ≡ some true)
  unfolding check_current
  check_current-verified current o true w h = absurd (raise-ne-ok internal_server_error w h)
  check_current-verified current none false w h = absurd (raise-ne-ok internal_server_error w h)
  check_current-verified current (some identity) false w h =
      let (verified, ran, last) = or_raise-eq-ok _ _ _ w h in
      (identity, refl, ran ∙ ap some (require-true verified w last))

  -- The password that verifyCurrentPasswordForFactorAction accepts is that of the user's email identity.
  verify_current-verified :
      (user_pg : ℕ) (current : Str) (w : World C)
      → (verify_current_password env user_pg current w).0 ≡ ok tt
      → (identity : EmailAuth) × (get_email_auth_by_user_id user_pg w.db ≡ some identity)
        × (verify_password_phc env current (stored_hash identity) true ≡ some true)
  unfolding verify_current_password
  verify_current-verified user_pg current w h =
      check_current-verified current _ (env.db_fails w.calls) _ (rw (query-bind env _ _ w) at h)

  Preserves-check_current :
      (d : Database) (current : Str) (r : Reply EmailAuth)
      → Preserves (HasDatabase d) (check_current env current r)
  unfolding check_current
  Preserves-check_current d current (found identity) = search preserves_rules
  Preserves-check_current d current no_rows = search preserves_rules
  Preserves-check_current d current failed = search preserves_rules

  Preserves-verify_current :
      (d : Database) (user_pg : ℕ) (current : Str)
      → Preserves (HasDatabase d) (verify_current_password env user_pg current)
  unfolding verify_current_password
  Preserves-verify_current d user_pg current =
      search (preserves_rules, calls_frame, Preserves-check_current)

  Preserves-owns :
      (d : Database) (user_pg passkey_pg : ℕ)
      → Preserves (HasDatabase d) (user_owns_passkey env user_pg passkey_pg)
  unfolding user_owns_passkey
  Preserves-owns d user_pg passkey_pg = search (preserves_rules, calls_frame)

  owns-any :
      (user_pg passkey_pg : ℕ) (w : World C) {b : Bool}
      → (user_owns_passkey env user_pg passkey_pg w).0 ≡ ok b
      → b ≡ true
      → any (λ c. c.id == passkey_pg) (get_webauthn_credentials_by_user_id user_pg w.db) ≡ true
  unfolding user_owns_passkey
  owns-any user_pg passkey_pg w h e =
      let value = pure-eq-ok _ _ (rw (query-bind env _ _ w) at h) in
      elim (Bool-cases (env.db_fails w.calls)) [
        | inl down ↦ (let bad = rw down at value in cc)
        | inr up ↦ rw up at value ∙ e
      ]

  module _ (user_id current passkey_id : Str) (w : World C) where
    abbrev pub DeleteOutcome : Result ErrorDetail (Unit {0}) × World C → Type 0
    DeleteOutcome = AllOrNothing w.db (λ u db. IsRemoved env user_id current passkey_id w db)

    removed_tail :
        (user_pg passkey_pg : ℕ) (v : World C)
        → v.db ≡ w.db
        → ((later : Database)
            → later.webauthn_credentials
              ≡ keep (λ c. not (is_own passkey_pg user_pg c)) w.db.webauthn_credentials
            → IsRemoved env user_id current passkey_id w later)
        → DeleteOutcome (
            (do
              deleted ← statement env (delete_webauthn_credential passkey_pg user_pg)
              require (is_found deleted) internal_server_error
              statement env
                  (create_audit_log (passkey_audit env user_pg none (codes "Passkey removed")))
              pure tt)
              v)
    unfolding ◌>>=◌ statement delete_webauthn_credential create_audit_log
    removed_tail user_pg passkey_pg v same make =
        let rows =
          ap {A = Database}
            (λ d. keep (λ c. not (is_own passkey_pg user_pg c)) d.webauthn_credentials) same in
        elim (Bool-cases (env.db_fails v.calls)) [
          | inl down ↦ rw down same
          | inr up ↦ elim (Bool-cases (env.db_fails (v.calls + 1))) [
            | inl unlogged ↦ rw (up, unlogged) (make _ rows)
            | inr logged ↦ rw (up, logged) (make _ rows)
          ]
        ]

    -- DeletePasskey either returns an error and leaves the database as it was, or the current password
    -- verifies against the hash of the caller's email identity and the passkey is one of the caller's, and
    -- then the passkeys are those that there were but for this one.
    pub delete_passkey-DeleteOutcome :
        DeleteOutcome (delete_passkey env user_id current passkey_id w)
    unfolding delete_passkey
    delete_passkey-DeleteOutcome =
        let Q = DeleteOutcome in
        holds-or_raise Q _ _ _ w (λ h. refl)
          (λ user_pg is_user.
            holds-or_raise Q _ _ _ w (λ h. refl)
              (λ passkey_pg is_passkey.
                let kept = (Preserves-verify_current w.db user_pg current).kept w refl in
                holds-bind Q _ _ w (λ e h. kept)
                  (λ u authenticated.
                    let kept' = (Preserves-owns w.db user_pg passkey_pg).kept _ kept in
                    holds-bind Q _ _ _ (λ e h. kept')
                      (λ owns asked.
                        holds-require Q owns _ _ _ (λ h. kept')
                          (λ owned. removed_tail user_pg passkey_pg _ kept' (λ later rows. record {
                            user_pg = user_pg;
                            passkey_pg = passkey_pg;
                            is_user = is_user;
                            is_passkey = is_passkey;
                            identity = (verify_current-verified user_pg current w authenticated).0;
                            of_user = (verify_current-verified user_pg current w authenticated).1;
                            verified = (verify_current-verified user_pg current w authenticated).2;
                            owned =
                                subst
                                  (λ d.
                                    any (λ c. c.id == passkey_pg)
                                      (get_webauthn_credentials_by_user_id user_pg d)
                                    ≡ true)
                                  kept (owns-any user_pg passkey_pg _ asked owned);
                            removed = rows;
                          }))))))
