-- ===== src/Services/Mfa/Admission.antt =====
-- What an MFA login that returns tokens has established.
use golang_auth_api.Prelude.{
  ℕ, ◌≡◌, refl, Bool, true, false, Bool-cases, inl, inr, Option, none, some, List, [], ◌∷◌, ◌++◌,
  if◌then◌else◌, is_empty, Str, trim_space, ◌||◌,
}
use golang_auth_api.Exec.{ok, raise, ◌>>◌, bind-eq-ok, raise-ne-ok, or_raise-eq-ok, require-eq-ok}
use golang_auth_api.Exec.Outcome.{Always, NeverFails, IfOk, IfOk-elim, outcome_rules}
use golang_auth_api.Model.Errors.{
  ErrorDetail, internal_server_error, account_not_usable, invalid_mfa_code, invalid_mfa_method,
  mfa_not_enabled, invalid_or_expired_token, unauthorized,
}
use golang_auth_api.Platform.{Env, World, failed, reply_of}
use golang_auth_api.Platform.CallLaws.{query-bind, calls_return}
use golang_auth_api.Database.Identities.{EmailAuth, get_email_auth_by_user_id}
use golang_auth_api.Auth.Jwt.{bearer, role_mfa_pending, verify_and_parse_temporary_jwt}
use golang_auth_api.Services.Common.{RequestMeta, attempt, attempt-eq-some}
use golang_auth_api.Services.Login.{LoginResult, list_enabled_mfa_methods}
use golang_auth_api.Services.Passwords.{is_unusable}
use golang_auth_api.Services.Mfa.Proof.{IsProof, prove_factor-IsProof}
use golang_auth_api.Services.Mfa.{
  Progress, mfa_method_enabled, count_failure, finish_mfa_login, conclude, prove_factor,
  with_methods, verify_mfa_login,
}

module _ {C : Type 0} (env : Env C) (code : Str) (meta : RequestMeta) where
  count_failure-returns : (o : Option ℕ) → NeverFails (count_failure env o)
  unfolding count_failure
  count_failure-returns none = search outcome_rules
  count_failure-returns (some id) = search (outcome_rules, calls_return)

  unproved_fails :
      (o : Option ℕ)
      → Always {A = LoginResult} (IfOk ⊥) (do count_failure env o; raise invalid_mfa_code)
  unproved_fails o = search (outcome_rules, count_failure-returns)

  finish-usable :
      (challenge : Str) (o : Option EmailAuth) (down : Bool) (w : World C) {r : LoginResult}
      → (finish_mfa_login env meta challenge (if down then failed else reply_of o) w).0 ≡ ok r
      → (identity : EmailAuth) × (o ≡ some identity) × (is_unusable identity ≡ false)
  unfolding finish_mfa_login
  finish-usable challenge o true w h = absurd (raise-ne-ok internal_server_error w h)
  finish-usable challenge none false w h = absurd (raise-ne-ok internal_server_error w h)
  finish-usable challenge (some identity) false w h = elim (Bool-cases (is_unusable identity)) [
    | inl bad ↦ absurd (raise-ne-ok account_not_usable w (rw bad at h))
    | inr good ↦ (identity, refl, good)
  ]

  conclude-proved :
      (challenge : Str) (user_pg : ℕ) (p : Progress) (w : World C) {r : LoginResult}
      → (conclude env meta challenge user_pg p w).0 ≡ ok r
      → (p.authenticated ≡ true)
        × (identity : EmailAuth) × (get_email_auth_by_user_id user_pg w.db ≡ some identity)
        × (is_unusable identity ≡ false)
  unfolding conclude
  conclude-proved challenge user_pg p w h = elim (Bool-cases p.authenticated) [
    | inl proved ↦
        let finished = rw (query-bind env _ _ w) at (rw proved at h) in
        let (identity, row, usable) = finish-usable challenge _ (env.db_fails w.calls) _ finished in
        (proved, identity, row, usable)
    | inr unset ↦ absurd (IfOk-elim ((unproved_fails p.failed_factor).at w) (rw unset at h))
  ]

  -- What the steps after the challenge have established: the method, an attempt that accepted
  -- the code, and an account that can be served.
  pub record IsProvedBy (user_id : Str) (user_pg : ℕ) (methods : List Str) (requested : Str)
      (w : World C) : Type 0 where
    pub allowed : (is_empty requested || mfa_method_enabled methods requested) ≡ true
    pub progress : Progress
    pub accepted : (prove_factor env meta user_id user_pg methods requested code w).0 ≡ ok progress
    pub authenticated : progress.authenticated ≡ true
    pub proof : IsProof env code meta user_id user_pg methods requested w
    pub identity : EmailAuth
    pub row :
        get_email_auth_by_user_id user_pg
          (prove_factor env meta user_id user_pg methods requested code w).1.db
        ≡ some identity
    pub usable : is_unusable identity ≡ false

  with_methods-IsProvedBy :
      (challenge user_id : Str) (user_pg : ℕ) (methods : List Str) (requested : Str) (w : World C)
      {r : LoginResult}
      → (with_methods env meta challenge user_id user_pg methods requested code w).0 ≡ ok r
      → IsProvedBy user_id user_pg methods requested w
  unfolding with_methods
  with_methods-IsProvedBy challenge user_id user_pg [] requested w h =
      absurd (raise-ne-ok mfa_not_enabled w h)
  with_methods-IsProvedBy challenge user_id user_pg (m ∷ ms) requested w h =
      let (allowed, rest) = require-eq-ok _ invalid_mfa_method _ w h in
      let (progress, accepted, last) = bind-eq-ok _ _ w rest in
      let (authenticated, identity, row, usable) =
        conclude-proved challenge user_pg progress _ last in
      record {
        allowed = allowed;
        progress = progress;
        accepted = accepted;
        authenticated = authenticated;
        proof =
            prove_factor-IsProof env code meta user_id user_pg (m ∷ ms) requested w accepted
              authenticated;
        identity = identity;
        row = row;
        usable = usable;
      }

-- The challenge token of the request is a temporary token for a pending MFA login.
abbrev pub after_challenge : {C : Type 0} → Env C → Str → World C → World C
after_challenge env token w =
    (verify_and_parse_temporary_jwt env (bearer ++ token) role_mfa_pending w).1

pub record IsAdmitted {C : Type 0} (env : Env C) (meta : RequestMeta) (token method code : Str)
    (w : World C) : Type 0 where
  pub ids : Str × Str
  pub challenged :
      (verify_and_parse_temporary_jwt env (bearer ++ token) role_mfa_pending w).0 ≡ ok ids
  pub user_pg : ℕ
  pub parsed : env.parse_uuid ids.0 ≡ some user_pg
  pub methods : List Str
  pub listed :
      (list_enabled_mfa_methods env {E = ErrorDetail} user_pg (after_challenge env token w)).0
      ≡ ok (some methods)
  pub proved :
      IsProvedBy env
        (trim_space code)
        meta
        ids.0
        user_pg
        methods
        (trim_space method)
        (list_enabled_mfa_methods env {E = ErrorDetail} user_pg (after_challenge env token w)).1

-- VerifyMFALogin returns tokens only if the challenge token is verified as that of a pending MFA login,
-- its subject parses to a user, the requested method, if any, is an enabled one of that user, and the
-- trimmed code is a TOTP code of the user's factor, or the live email code for the login of the user, each
-- where the method is enabled and none or this one is asked for, or an unused recovery code; and the
-- account that is then stored for the user is neither deleted nor banned or disabled.
pub verify_mfa_login-IsAdmitted :
    {C : Type 0} (env : Env C) (meta : RequestMeta) (token method code : Str) (w : World C)
    {r : LoginResult}
    → (verify_mfa_login env meta token method code w).0 ≡ ok r
    → IsAdmitted env meta token method code w
unfolding verify_mfa_login attempt
verify_mfa_login-IsAdmitted env meta token method code w h =
    let (parsed_token, ran, rest) = bind-eq-ok _ _ w h in
    let (ids, is_token, with_user) = or_raise-eq-ok _ invalid_or_expired_token _ _ rest in
    let (user_pg, parsed, with_list) = or_raise-eq-ok _ unauthorized _ _ with_user in
    let (listed, list_ran, with_option) = bind-eq-ok _ _ _ with_list in
    let (methods, is_listed, last) = or_raise-eq-ok _ internal_server_error _ _ with_option in
    record {
      ids = ids;
      challenged =
          attempt-eq-some (verify_and_parse_temporary_jwt env (bearer ++ token) role_mfa_pending) w
            ran is_token;
      user_pg = user_pg;
      parsed = parsed;
      methods = methods;
      listed = rw is_listed at list_ran;
      proved =
          with_methods-IsProvedBy env (trim_space code) meta ids.1 ids.0 user_pg methods
            (trim_space method) _ last;
    }
