-- ===== src/Services/Mfa/Proof.antt =====
-- Which of the three attempts of an MFA login has accepted the code, and what it has checked.
use mathlib.Core.Path.{subst}
use golang_auth_api.Prelude.{
  ◌≡◌, ◌∙◌, ◌+◌, ◌⊎◌, refl, ℕ, Bool, true, false, ◌&&◌, Bool-cases, inl, inr, Option, none, some,
  List, if◌then◌else◌, Str, to_upper,
}
use golang_auth_api.Exec.{ok, bind-eq-ok, pure-eq-ok, raise-ne-ok}
use golang_auth_api.Model.Errors.{internal_server_error}
use golang_auth_api.Model.Rows.{MfaRecoveryCode, Database}
use golang_auth_api.Platform.{Env, World, failed, reply_of}
use golang_auth_api.Platform.CallLaws.{query-bind}
use golang_auth_api.Database.Mfa.{get_unused_mfa_recovery_code}
use golang_auth_api.Auth.Jwt.{hash_opaque_token}
use golang_auth_api.Services.Common.{RequestMeta}
use golang_auth_api.Services.Login.{method_totp, method_email}
use golang_auth_api.Services.Mfa.{
  Progress, try_method, mfa_method_enabled, try_totp, recovery_reply, try_recovery, prove_factor,
}
use golang_auth_api.Services.Mfa.Factors.{IsTotpOf, try_totp-IsTotpOf}
use golang_auth_api.Services.Mfa.EmailCode.{IsEmailOf, try_email-IsEmailOf}
use golang_auth_api.Services.Mfa.Kept.{try_totp-kept, try_email-kept}

module _ {C : Type 0} (env : Env C) (code : Str) where
  -- An unused recovery code whose hash is that of the upper-cased code.
  pub record IsRecoveryOf (db : Database) : Type 0 where
    pub recovery : MfaRecoveryCode
    pub unused :
        get_unused_mfa_recovery_code (hash_opaque_token env (to_upper code)) db ≡ some recovery

  recovery_reply-found :
      (p : Progress) (o : Option MfaRecoveryCode) (down : Bool) (w : World C) {q : Progress}
      → p.authenticated ≡ false
      → (recovery_reply env code p (if down then failed else reply_of o) w).0 ≡ ok q
      → q.authenticated ≡ true
      → (c : MfaRecoveryCode) × (o ≡ some c)
  unfolding recovery_reply
  recovery_reply-found p o true w unset h set = absurd (raise-ne-ok internal_server_error w h)
  recovery_reply-found p none false w unset h set = let e = pure-eq-ok p w h in cc
  recovery_reply-found p (some c) false w unset h set = (c, refl)

  try_recovery-IsRecoveryOf :
      (p : Progress) (w : World C) {q : Progress}
      → p.authenticated ≡ false
      → (try_recovery env code p w).0 ≡ ok q
      → q.authenticated ≡ true
      → IsRecoveryOf w.db
  unfolding try_recovery
  try_recovery-IsRecoveryOf p w unset h set =
      let ran = rw (query-bind env _ _ w) at (rw unset at h) in
      let (c, row) =
        recovery_reply-found (record p { authenticated = false }) _ (env.db_fails w.calls) _ refl
          ran set in
      record { recovery = c; unused = row }

  -- The attempts that are made: where a method is enabled, and none or this one is asked for.
  abbrev pub is_tried : List Str → Str → Str → Bool
  is_tried methods requested method =
      try_method requested method && mfa_method_enabled methods method

  module _ (meta : RequestMeta) (user_id : Str) (user_pg : ℕ) (methods : List Str) (requested : Str)
      (w : World C) where
    abbrev pub after_totp : World C
    after_totp = (try_totp env code user_pg (is_tried methods requested method_totp) w).1

    -- A TOTP code of the user's factor, or a live email code for the login of the user, or an unused
    -- recovery code.
    abbrev pub IsProof : Type 0
    IsProof =
        ((is_tried methods requested method_totp ≡ true)
          × IsTotpOf env code user_pg (env.clock (w.calls + 1)) w.db)
        ⊎ (((is_tried methods requested method_email ≡ true)
              × IsEmailOf env code user_id user_pg w.db
                  (record after_totp { calls = after_totp.calls + 1 }))
            ⊎ IsRecoveryOf w.db)

    pub prove_factor-IsProof :
        {q : Progress}
        → (prove_factor env meta user_id user_pg methods requested code w).0 ≡ ok q
        → q.authenticated ≡ true
        → IsProof
    unfolding prove_factor
    prove_factor-IsProof h set =
        let (p, totp_ran, h1) = bind-eq-ok _ _ w h in
        let (p', email_ran, h2) = bind-eq-ok _ _ _ h1 in
        elim (Bool-cases p.authenticated) [
          | inl by_totp ↦ inl (try_totp-IsTotpOf env code user_pg _ w totp_ran by_totp)
          | inr no_totp ↦
              let kept = try_totp-kept env code user_pg _ w totp_ran no_totp in
              elim (Bool-cases p'.authenticated) [
                | inl by_email ↦
                    let (tried, of_email) =
                      try_email-IsEmailOf env code user_id user_pg _ p _ no_totp email_ran
                        by_email in
                    inr (
                      inl (
                        tried,
                        subst
                            (λ d.
                              IsEmailOf env code user_id user_pg d
                                (record after_totp { calls = after_totp.calls + 1 }))
                            kept of_email,
                      ))
                | inr no_email ↦
                    let kept' =
                      try_email-kept env code user_id user_pg _ p _ email_ran no_email no_totp in
                    inr (
                      inr (
                        subst IsRecoveryOf (kept' ∙ kept)
                          (try_recovery-IsRecoveryOf p' _ no_email h2 set)))
              ]
        ]
