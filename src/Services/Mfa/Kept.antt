-- ===== src/Services/Mfa/Kept.antt =====
-- An attempt of an MFA login that fails leaves the database.
use golang_auth_api.Prelude.{
  ap, ◌≡◌, ◌∙◌, refl, ℕ, Bool, true, false, ◌||◌, ltb, leb, Bool-cases, inl, inr, Option, none,
  some, if◌then◌else◌, Str,
}
use golang_auth_api.Exec.{
  Exec, Result, ok, pure, ◌>>=◌, ◌>>◌, bind-eq-ok, pure-eq-ok, pure-state, raise-ne-ok,
}
use golang_auth_api.Exec.Preserves.{Preserves, preserves_rules}
use golang_auth_api.Model.Errors.{ErrorDetail, internal_server_error}
use golang_auth_api.Model.Rows.{MfaFactor, OtpMeta, Database}
use golang_auth_api.Platform.{Env, World, Service, Reply, found, no_rows, failed}
use golang_auth_api.Platform.Calls.{now, query}
use golang_auth_api.Platform.CallLaws.{now-bind, query-bind}
use golang_auth_api.Platform.Frame.{HasDatabase, calls_frame}
use golang_auth_api.Auth.OtpCode.{get_mfa_otp_code, save_mfa_otp_code}
use golang_auth_api.Services.Login.{method_email}
use golang_auth_api.Services.Mfa.{
  Progress, proved, unproved, purpose_login, constant_time_equal, totp_outcome, check_totp,
  totp_reply, try_totp, check_email_code, email_code_outcome, email_reply, try_email,
}

module _ {C : Type 0} (env : Env C) (code : Str) where
  set-ne-unset : {p q : Progress} → p ≡ q → p.authenticated ≡ true → q.authenticated ≡ false → ⊥
  set-ne-unset e set unset = cc

  -- An attempt of TOTP that fails leaves the database.
  totp_outcome-kept :
      (factor : MfaFactor) (o : Option ℕ) (w : World C) {p : Progress}
      → (totp_outcome env code factor o w).0 ≡ ok p
      → p.authenticated ≡ false
      → (totp_outcome env code factor o w).1.db ≡ w.db
  unfolding totp_outcome
  totp_outcome-kept factor none w h unset = ap (λ v. v.db) (pure-state ErrorDetail _ w)
  totp_outcome-kept factor (some step) w h unset =
      let (r, ran, last) = bind-eq-ok _ _ w h in
      absurd (set-ne-unset (pure-eq-ok (proved unproved) _ last) refl unset)

  check_totp-kept :
      (factor : MfaFactor) (o : Option Str) (w : World C) {p : Progress}
      → (check_totp env code factor o w).0 ≡ ok p
      → p.authenticated ≡ false
      → (check_totp env code factor o w).1.db ≡ w.db
  unfolding check_totp now ◌>>=◌
  check_totp-kept factor none w h unset = absurd (raise-ne-ok internal_server_error w h)
  check_totp-kept factor (some secret) w h unset = totp_outcome-kept factor _ _ h unset

  totp_reply-kept :
      (r : Reply MfaFactor) (w : World C) {p : Progress}
      → (totp_reply env code r w).0 ≡ ok p
      → p.authenticated ≡ false
      → (totp_reply env code r w).1.db ≡ w.db
  unfolding totp_reply ◌>>=◌
  totp_reply-kept failed w h unset = absurd (raise-ne-ok internal_server_error w h)
  totp_reply-kept no_rows w h unset = refl
  totp_reply-kept (found factor) w h unset = check_totp-kept factor _ w h unset

  pub try_totp-kept :
      (user_pg : ℕ) (tried : Bool) (w : World C) {p : Progress}
      → (try_totp env code user_pg tried w).0 ≡ ok p
      → p.authenticated ≡ false
      → (try_totp env code user_pg tried w).1.db ≡ w.db
  unfolding try_totp query ◌>>=◌
  try_totp-kept user_pg false w h unset = refl
  try_totp-kept user_pg true w h unset = totp_reply-kept _ _ h unset

  -- As does one of the email code.
  true-ne-ok_false : (w : World C) → (pure {E = ErrorDetail} true w).0 ≡ ok false → ⊥
  true-ne-ok_false w h = let e = pure-eq-ok true w h in cc

  Preserves-wrong :
      (d : Database) (user_id : Str) (meta : OtpMeta)
      → Preserves (HasDatabase d) (do
        save_mfa_otp_code env {E = ErrorDetail} method_email purpose_login user_id meta
        pure false)
  unfolding save_mfa_otp_code
  Preserves-wrong d user_id meta = search (preserves_rules, calls_frame)

  check_email_code-kept :
      (user_id : Str) (factor_id : ℕ) (meta : OtpMeta) (w : World C)
      → (check_email_code env code user_id factor_id meta w).0 ≡ ok false
      → (check_email_code env code user_id factor_id meta w).1.db ≡ w.db
  unfolding check_email_code
  check_email_code-kept user_id factor_id meta w h =
      let ran = rw (now-bind env _ w) at h in
      rw (now-bind env _ w)
        (elim (Bool-cases
          (ltb meta.expires_at (env.clock w.calls) || leb meta.max_attempts meta.attempts)) [
            | inl dead ↦ rw dead (ap {A = World C} (λ v. v.db) (pure-state ErrorDetail false _))
            | inr live ↦ elim (Bool-cases (constant_time_equal code meta.code)) [
              | inl same ↦
                  let (r, first, rest) = bind-eq-ok _ _ _ (rw (live, same) at ran) in
                  let (b, second, last) = bind-eq-ok _ _ _ rest in absurd (true-ne-ok_false _ last)
              | inr differs ↦ rw (live, differs) ((Preserves-wrong w.db user_id _).kept _ refl)
            ]
          ])

  email_code_outcome-kept :
      (user_id : Str) (factor_id : ℕ) (o : Option OtpMeta) (w : World C)
      → (email_code_outcome env code user_id factor_id o w).0 ≡ ok false
      → (email_code_outcome env code user_id factor_id o w).1.db ≡ w.db
  unfolding email_code_outcome
  email_code_outcome-kept user_id factor_id none w h =
      ap (λ v. v.db) (pure-state ErrorDetail false w)
  email_code_outcome-kept user_id factor_id (some meta) w h =
      check_email_code-kept user_id factor_id meta w h

  ok_injective : {b : Bool} → ◌≡◌ {A = Result ErrorDetail Bool} (ok b) (ok false) → b ≡ false
  ok_injective e = cc

  right-unset :
      (right : Bool) (p : Progress) (id : Option ℕ) (w : World C) {q : Progress}
      → ((if right
            then pure (proved p)
            else pure {E = ErrorDetail} (record p { failed_factor = id }))
          w).0
        ≡ ok q
      → q.authenticated ≡ false
      → (right ≡ false)
        × (((if right
                then pure (proved p)
                else pure {E = ErrorDetail} (record p { failed_factor = id }))
              w).1
            ≡ w)
  right-unset true p id w h unset = absurd (set-ne-unset (pure-eq-ok (proved p) w h) refl unset)
  right-unset false p id w h unset = (refl, pure-state ErrorDetail _ w)

  Preserves-get :
      (d : Database) (user_id : Str)
      → Preserves
          (HasDatabase d)
          (get_mfa_otp_code env {E = ErrorDetail} method_email purpose_login user_id)
  unfolding get_mfa_otp_code
  Preserves-get d user_id = search (preserves_rules, calls_frame)

  bind-leaves :
      {A B : Type 0} (m : Exec (World C) ErrorDetail A) (f : A → Exec (World C) ErrorDetail B)
      (w : World C) (d : Database) {a : A}
      → (m w).0 ≡ ok a
      → (f a (m w).1).1.db ≡ d
      → ((m >>= f) w).1.db ≡ d
  unfolding ◌>>=◌
  bind-leaves m f w d e h = rw e h

  -- The part of the email attempt behind the lookup of the factor.
  abbrev with_factor : Str → Progress → MfaFactor → Service C Progress
  with_factor user_id p factor = do
    meta ← get_mfa_otp_code env method_email purpose_login user_id
    right ← email_code_outcome env code user_id factor.id meta
    if right then pure (proved p) else pure (record p { failed_factor = some factor.id })

  found-kept :
      (user_id : Str) (p : Progress) (factor : MfaFactor) (w : World C) {q : Progress}
      → (with_factor user_id p factor w).0 ≡ ok q
      → q.authenticated ≡ false
      → (with_factor user_id p factor w).1.db ≡ w.db
  found-kept user_id p factor w h unset =
      let (o, got, rest) = bind-eq-ok _ _ w h in
      let (right, checked, last) = bind-eq-ok _ _ _ rest in
      let (wrong, left) = right-unset right p (some factor.id) _ last unset in
      let kept = (Preserves-get w.db user_id).kept w refl in
      bind-leaves _ _ w w.db got (
        bind-leaves _ _ _ w.db checked (
          ap {A = World C} (λ v. v.db) left
          ∙ (email_code_outcome-kept user_id factor.id o _ (checked ∙ ap ok wrong) ∙ kept)))

  email_reply-kept :
      (user_id : Str) (p : Progress) (r : Reply MfaFactor) (w : World C) {q : Progress}
      → (email_reply env code user_id p r w).0 ≡ ok q
      → q.authenticated ≡ false
      → (email_reply env code user_id p r w).1.db ≡ w.db
  unfolding email_reply
  email_reply-kept user_id p failed w h unset = absurd (raise-ne-ok internal_server_error w h)
  email_reply-kept user_id p no_rows w h unset = ap (λ v. v.db) (pure-state ErrorDetail p w)
  email_reply-kept user_id p (found factor) w h unset = found-kept user_id p factor w h unset

  pub try_email-kept :
      (user_id : Str) (user_pg : ℕ) (tried : Bool) (p : Progress) (w : World C) {q : Progress}
      → (try_email env code user_id user_pg tried p w).0 ≡ ok q
      → q.authenticated ≡ false
      → p.authenticated ≡ false
      → (try_email env code user_id user_pg tried p w).1.db ≡ w.db
  unfolding try_email
  try_email-kept user_id user_pg false p w h unset before =
      rw before (ap (λ v. v.db) (pure-state ErrorDetail _ w))
  try_email-kept user_id user_pg true p w h unset before =
      rw (before, query-bind env _ _ w)
        (email_reply-kept user_id _ _ _ (rw (query-bind env _ _ w) at (rw before at h)) unset)
