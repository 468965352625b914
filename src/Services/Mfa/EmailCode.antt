-- ===== src/Services/Mfa/EmailCode.antt =====
-- What the email attempt of an MFA login has established when it accepts the code.
use golang_auth_api.Prelude.{
  ap, ℕ, ◌+◌, ◌<◌, ◌≤◌, ◌≡◌, refl, Bool, true, false, ◌||◌, ltb, leb, Bool-cases, inl, inr, Option,
  none, some, if◌then◌else◌, Str, arith,
}
use golang_auth_api.Exec.{Result, ok, pure, bind-eq-ok, pure-eq-ok, raise-ne-ok}
use golang_auth_api.Model.Errors.{ErrorDetail, internal_server_error}
use golang_auth_api.Model.Rows.{MfaType, MfaFactor, OtpMeta, Database}
use golang_auth_api.Platform.{Env, World, failed, reply_of}
use golang_auth_api.Platform.CallLaws.{now-bind, query-bind}
use golang_auth_api.Database.Mfa.{get_factor_by_user_id}
use golang_auth_api.Auth.OtpCode.{get_mfa_otp_code}
use golang_auth_api.Services.Login.{method_email}
use golang_auth_api.Services.Mfa.{
  Progress, proved, purpose_login, constant_time_equal, check_email_code, email_code_outcome,
  email_reply, try_email,
}

module _ {C : Type 0} (env : Env C) (code : Str) where
  -- The stored code is the given one, has not expired, and has guesses left.
  pub record IsLiveCode (t : ℕ) (meta : OtpMeta) : Type 0 where
    pub in_time : t ≤ meta.expires_at
    pub guesses_left : meta.attempts < meta.max_attempts
    pub same_code : constant_time_equal code meta.code ≡ true

  false-ne-ok_true : (w : World C) → (pure {E = ErrorDetail} false w).0 ≡ ok true → ⊥
  false-ne-ok_true w h = let e = pure-eq-ok false w h in cc

  check_email_code-IsLiveCode :
      (user_id : Str) (factor_id : ℕ) (meta : OtpMeta) (w : World C)
      → (check_email_code env code user_id factor_id meta w).0 ≡ ok true
      → IsLiveCode (env.clock w.calls) meta
  unfolding check_email_code
  check_email_code-IsLiveCode user_id factor_id meta w h =
      let ran = rw now-bind at h in
      elim (Bool-cases
        (ltb meta.expires_at (env.clock w.calls) || leb meta.max_attempts meta.attempts)) [
          | inl dead ↦ absurd (false-ne-ok_true _ (rw dead at ran))
          | inr live ↦ elim (Bool-cases (constant_time_equal code meta.code)) [
            | inl same ↦ record {
              in_time = ground arith;
              guesses_left = ground arith;
              same_code = same;
            }
            | inr differs ↦
                let (_, _, last) = bind-eq-ok _ _ _ (rw (live, differs) at ran) in
                absurd (false-ne-ok_true _ last)
          ]
        ]

  email_code_outcome-IsLiveCode :
      (user_id : Str) (factor_id : ℕ) (o : Option OtpMeta) (w : World C)
      → (email_code_outcome env code user_id factor_id o w).0 ≡ ok true
      → (meta : OtpMeta) × (o ≡ some meta) × IsLiveCode (env.clock w.calls) meta
  unfolding email_code_outcome
  email_code_outcome-IsLiveCode user_id factor_id none w h = absurd (false-ne-ok_true w h)
  email_code_outcome-IsLiveCode user_id factor_id (some meta) w h =
      (meta, refl, check_email_code-IsLiveCode user_id factor_id meta w h)

  abbrev stored_code : Str → World C → Result ErrorDetail (Option OtpMeta) × World C
  stored_code user_id w = get_mfa_otp_code env method_email purpose_login user_id w

  -- The user's email factor, and the live code that Redis held for the login.
  pub record IsEmailOf (user_id : Str) (user_pg : ℕ) (db : Database) (w : World C) : Type 0 where
    pub factor : MfaFactor
    pub of_user : get_factor_by_user_id MfaType.email user_pg db ≡ some factor
    pub meta : OtpMeta
    pub stored : (stored_code user_id w).0 ≡ ok (some meta)
    pub live : IsLiveCode (env.clock (stored_code user_id w).1.calls) meta

  clash : {a b : Bool} → a ≡ b → a ≡ false → b ≡ true → ⊥
  clash same off on = cc

  right_one :
      (right : Bool) (p : Progress) (id : Option ℕ) (w : World C) {q : Progress}
      → p.authenticated ≡ false
      → ((if right
            then pure (proved p)
            else pure {E = ErrorDetail} (record p { failed_factor = id }))
          w).0
        ≡ ok q
      → q.authenticated ≡ true
      → right ≡ true
  right_one true p id w unset h set = refl
  right_one false p id w unset h set = let e = pure-eq-ok _ w h in cc

  email_reply-IsEmailOf :
      (user_id : Str) (user_pg : ℕ) (db : Database) (p : Progress) (o : Option MfaFactor)
      (down : Bool) (w : World C) {q : Progress}
      → p.authenticated ≡ false
      → get_factor_by_user_id MfaType.email user_pg db ≡ o
      → (email_reply env code user_id p (if down then failed else reply_of o) w).0 ≡ ok q
      → q.authenticated ≡ true
      → IsEmailOf user_id user_pg db w
  unfolding email_reply
  email_reply-IsEmailOf user_id user_pg db p o true w unset row h set =
      absurd (raise-ne-ok internal_server_error w h)
  email_reply-IsEmailOf user_id user_pg db p none false w unset row h set =
      let e = pure-eq-ok p w h in absurd (clash (ap (λ x. x.authenticated) e) unset set)
  email_reply-IsEmailOf user_id user_pg db p (some factor) false w unset row h set =
      let (o, stored, rest) = bind-eq-ok _ _ w h in
      let (right, outcome, last) = bind-eq-ok _ _ _ rest in
      let is_right = right_one right p _ _ unset last set in
      let (meta, is_meta, live) =
        email_code_outcome-IsLiveCode user_id factor.id o _ (rw is_right at outcome) in
      record {
        factor = factor;
        of_user = row;
        meta = meta;
        stored = rw is_meta at stored;
        live = live;
      }

-- Where TOTP has not proved the login, the email attempt proves it only if email was asked for, the
-- user has an email factor, and Redis held a code for the login of the user that equals the given one,
-- has not expired, and had guesses left.
pub try_email-IsEmailOf :
    {C : Type 0} (env : Env C) (code user_id : Str) (user_pg : ℕ) (tried : Bool) (p : Progress)
    (w : World C) {q : Progress}
    → p.authenticated ≡ false
    → (try_email env code user_id user_pg tried p w).0 ≡ ok q
    → q.authenticated ≡ true
    → (tried ≡ true) × IsEmailOf env code user_id user_pg w.db (record w { calls = w.calls + 1 })
unfolding try_email
try_email-IsEmailOf env code user_id user_pg false p w unset h set =
    let e = pure-eq-ok _ w (rw unset at h) in
    absurd (clash env code (ap (λ x. x.authenticated) e) refl set)
try_email-IsEmailOf env code user_id user_pg true p w unset h set =
    let ran = rw (query-bind env _ _ w) at (rw unset at h) in
    (
      refl,
      email_reply-IsEmailOf env code user_id user_pg w.db (record p { authenticated = false }) _
          (env.db_fails w.calls) _ refl refl ran set,
    )
