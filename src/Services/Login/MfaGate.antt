-- ===== src/Services/Login/MfaGate.antt =====
-- A login without a second step: the account has no enabled factor.
use mathlib.Core.Path.{subst}
use mathlib.Core.Option.{some-injective}
use golang_auth_api.Model.Errors.{ErrorDetail, internal_server_error, account_not_usable}
use golang_auth_api.Prelude.{
  sym, ap, ℕ, ◌≡◌, refl, Bool, true, false, Option, none, some, List, [], ◌∷◌, ◌++◌, Bool-cases,
  inl, inr, if◌then◌else◌, Str, arith,
}
use golang_auth_api.Exec.{Result, pure-eq-ok, ok, raise, ◌>>=◌, ◌>>◌, bind-eq-ok, raise-ne-ok}
use golang_auth_api.Exec.Outcome.{Always, IfOk, IfOk-elim, outcome_rules}
use golang_auth_api.Model.Rows.{LoginOutcome, MfaType, MfaFactor, Database, is_blocked}
use golang_auth_api.Platform.{Env, World, failed, reply_of}
use golang_auth_api.Platform.Calls.{query, statement}
use golang_auth_api.Database.Identities.{EmailAuth, reset_failed_login_attempts}
use golang_auth_api.Database.Mfa.{get_factor_by_user_id}
use golang_auth_api.Services.Common.{
  RequestMeta, record_login_attempt, NeverFails-record_login_attempt,
}
use golang_auth_api.Services.Login.{
  LoginResult, with_factor, add_email_method, list_enabled_mfa_methods, method_totp, method_email,
  send_challenge, after_methods, password_verified,
}

-- No factor of the type is enabled for the user.
abbrev pub HasNoFactor : MfaType → ℕ → Database → Type 0
HasNoFactor kind user_id db =
    (f : MfaFactor) → get_factor_by_user_id kind user_id db ≡ some f → f.enabled ≡ false

added_ne_nil : (method : Str) (methods : List Str) → methods ++ method ∷ [] ≡ [] → ⊥
added_ne_nil method [] h = cc
added_ne_nil method (m ∷ ms) h = cc

ok-injective : {E A : Type 0} {a b : A} → ◌≡◌ {A = Result E A} (ok a) (ok b) → a ≡ b
ok-injective h = cc

-- A lookup that leaves the list of methods empty.
with_factor-empty :
    (method : Str) (methods : List Str) (o : Option MfaFactor) (down : Bool)
    → with_factor method methods (if down then failed else reply_of o) ≡ some []
    → (methods ≡ []) × ((f : MfaFactor) → o ≡ some f → f.enabled ≡ false)
with_factor-empty method methods o true h = cc
with_factor-empty method methods none false h = (ground arith, λ f e. cc)
with_factor-empty method methods (some g) false h = elim (Bool-cases g.enabled) [
  | inl on ↦ absurd (added_ne_nil method methods (some-injective _ _ (rw on at h)))
  | inr off ↦ (
    some-injective _ _ (rw off at h),
    λ f e. subst (λ z. z.enabled ≡ false) (some-injective _ _ e) off,
  )
]

module _ {C : Type 0} (env : Env C) where
  add_email-empty :
      {E : Type 0} (user_id : ℕ) (m : Option (List Str)) (w : World C)
      → (add_email_method env {E = E} user_id m w).0 ≡ ok (some [])
      → (m ≡ some []) × HasNoFactor MfaType.email user_id w.db
  unfolding add_email_method query ◌>>=◌
  add_email-empty user_id none w h = cc
  add_email-empty user_id (some methods) w h =
      let (empty, off) =
        with_factor-empty method_email methods _ (env.db_fails w.calls) (ok-injective h) in
      (ap (λ x. some x) empty, off)

  list_enabled-HasNoFactor :
      {E : Type 0} (user_id : ℕ) (w : World C)
      → (list_enabled_mfa_methods env {E = E} user_id w).0 ≡ ok (some [])
      → HasNoFactor MfaType.totp user_id w.db × HasNoFactor MfaType.email user_id w.db
  unfolding list_enabled_mfa_methods query ◌>>=◌
  list_enabled-HasNoFactor user_id w h =
      let (listed, no_email) = add_email-empty user_id _ _ h in
      let (_, no_totp) = with_factor-empty method_totp [] _ (env.db_fails w.calls) listed in
      (no_totp, no_email)

  module _ (meta : RequestMeta) (password : Str) (identity : EmailAuth) where
    send_challenge-required :
        (methods : List Str) (token : Option Str) (w : World C) {r : LoginResult}
        → (send_challenge env meta password identity methods token w).0 ≡ ok r
        → r.mfa_required ≡ true
    unfolding send_challenge
    send_challenge-required methods none w h = absurd (raise-ne-ok internal_server_error w h)
    send_challenge-required methods (some token) w h =
        let (_, _, done) = bind-eq-ok _ _ w h in
        ap (λ r. r.mfa_required) (sym (pure-eq-ok _ _ done))

    after_methods-empty :
        (o : Option (List Str)) (w : World C) {r : LoginResult}
        → (after_methods env meta password identity o w).0 ≡ ok r
        → r.mfa_required ≡ false
        → o ≡ some []
    unfolding after_methods
    after_methods-empty none w h off = absurd (raise-ne-ok internal_server_error w h)
    after_methods-empty (some []) w h off = refl
    after_methods-empty (some (m ∷ ms)) w h off =
        let (token, _, sent) = bind-eq-ok _ _ w h in
        let on = send_challenge-required (m ∷ ms) token _ sent in cc

    reset-mfa_factors :
        (id : ℕ) (w : World C)
        → (statement env {E = ErrorDetail} (reset_failed_login_attempts id) w).1.db.mfa_factors
          ≡ w.db.mfa_factors
    unfolding statement reset_failed_login_attempts
    reset-mfa_factors id w = elim (Bool-cases (env.db_fails w.calls)) [
      | inl down ↦ rw down refl
      | inr up ↦ rw up refl
    ]

same-HasNoFactor :
    (kind : MfaType) (user_id : ℕ) (d db : Database)
    → d.mfa_factors ≡ db.mfa_factors
    → HasNoFactor kind user_id d
    → HasNoFactor kind user_id db
unfolding get_factor_by_user_id
same-HasNoFactor kind user_id d db same h = rw (← same) h

blocked_fails :
    {C : Type 0} (env : Env C) (meta : RequestMeta) (password : Str) (identity : EmailAuth)
    → Always {A = LoginResult} (IfOk ⊥) (do
      record_login_attempt env meta
          (some identity.user_id)
          (some identity.identity_id)
          LoginOutcome.failed
      raise account_not_usable)
blocked_fails env meta password identity = search (outcome_rules, NeverFails-record_login_attempt)

-- After the right password, a login that asks for no second step is that of an account which is not
-- banned or disabled, and for which neither a TOTP nor an email factor is enabled.
pub password_verified-HasNoFactor :
    {C : Type 0} (env : Env C) (meta : RequestMeta) (password : Str) (identity : EmailAuth)
    (w : World C) {r : LoginResult}
    → (password_verified env meta password identity w).0 ≡ ok r
    → r.mfa_required ≡ false
    → (is_blocked identity.status ≡ false)
      × HasNoFactor MfaType.totp identity.user_id w.db
      × HasNoFactor MfaType.email identity.user_id w.db
unfolding password_verified
password_verified-HasNoFactor env meta password identity w h off =
    elim (Bool-cases (is_blocked identity.status)) [
      | inl blocked ↦
          absurd (IfOk-elim ((blocked_fails env meta password identity).at w) (rw blocked at h))
      | inr usable ↦
          let (_, _, rest) = bind-eq-ok _ _ w (rw usable at h) in
          let (o, listed, last) = bind-eq-ok _ _ _ rest in
          let empty = after_methods-empty env meta password identity o _ last off in
          let (no_totp, no_email) =
            list_enabled-HasNoFactor env identity.user_id _ (rw empty at listed) in
          let same = reset-mfa_factors env meta password identity identity.identity_id w in
          (
            usable,
            same-HasNoFactor _ _ _ w.db same no_totp,
            same-HasNoFactor _ _ _ w.db same no_email,
          )
    ]
