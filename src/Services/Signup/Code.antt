-- ===== src/Services/Signup/Code.antt =====
-- The code of an email verification: what is sent is what is stored, and what is accepted.
use golang_auth_api.Prelude.{
  ◌+◌, ◌<◌, ◌≤◌, ◌≡◌, refl, ℕ, true, arith, Bool-cases, inl, inr, some, ltb, [], ◌∷◌, ◌++◌, Str,
  str_eq, str_eq_refl, trim_space,
}
use golang_auth_api.Exec.{ok, raise-ne-ok, bind-eq-ok, require-eq-ok, or_raise-eq-ok, ◌>>=◌}
use golang_auth_api.Model.Errors.{ErrorDetail, incorrect_code}
use golang_auth_api.Model.Rows.{OtpMeta}
use golang_auth_api.Cache.{otp}
use golang_auth_api.Platform.{Env, World}
use golang_auth_api.Platform.Calls.{draw, now, cache_set, send_mail}
use golang_auth_api.Platform.CallLaws.{now-bind}
use golang_auth_api.Auth.Validations.{is_valid_email, is_valid_verification_code}
use golang_auth_api.Auth.Session.{email_code_key}
use golang_auth_api.Auth.OtpCode.{save_verification_code, get_verification_code}
use golang_auth_api.Services.Login.{normalized}
use golang_auth_api.Services.Signup.{store_and_send, check_verification_code, verify_email_code}

module _ {C : Type 0} (env : Env C) (email code : Str) where
  -- The code equals the stored one, which has not expired and has guesses left.
  pub record IsAccepted (t : ℕ) (meta : OtpMeta) : Type 0 where
    pub in_time : t ≤ meta.expires_at
    pub guesses_left : meta.attempts < meta.max_attempts
    pub same_code : str_eq code meta.code ≡ true

  check-IsAccepted :
      (meta : OtpMeta) (w : World C) {token : Str}
      → (check_verification_code env email code meta w).0 ≡ ok token
      → IsAccepted (env.clock w.calls) meta
  unfolding check_verification_code
  check-IsAccepted meta w h =
      let (in_time, rest) = require-eq-ok _ _ _ _ (rw (now-bind env _ w) at h) in
      let (left, last) = require-eq-ok _ _ _ _ rest in
      elim (Bool-cases (str_eq code meta.code)) [
        | inl same ↦ record {
          in_time = ground arith;
          guesses_left = ground arith;
          same_code = same;
        }
        | inr differs ↦
            let (_, _, raised) = bind-eq-ok _ _ _ (rw differs at last) in
            absurd (raise-ne-ok incorrect_code _ raised)
      ]

-- The code that Redis held for the email when it was checked.
pub record IsProved {C : Type 0} (env : Env C) (email code : Str) (w : World C) : Type 0 where
  pub email_valid : is_valid_email (normalized email) ≡ true
  pub well_formed : is_valid_verification_code (trim_space code) ≡ true
  pub meta : OtpMeta
  pub stored : (get_verification_code env {E = ErrorDetail} (normalized email) w).0 ≡ ok (some meta)
  pub accepted :
      IsAccepted env
        (normalized email)
        (trim_space code)
        (env.clock (get_verification_code env {E = ErrorDetail} (normalized email) w).1.calls)
        meta

-- VerifyEmailCode issues a token only if the email is valid, the trimmed code has six digits, and Redis
-- held a code for the email that equals it, has not expired, and had guesses left.
pub verify_email_code-IsProved :
    {C : Type 0} (env : Env C) (email code : Str) (w : World C) {token : Str}
    → (verify_email_code env email code w).0 ≡ ok token
    → IsProved env email code w
unfolding verify_email_code
verify_email_code-IsProved env email code w h =
    let (email_valid, h1) = require-eq-ok _ _ _ w h in
    let (well_formed, h2) = require-eq-ok _ _ _ w h1 in
    let (loaded, got, h3) = bind-eq-ok _ _ w h2 in
    let (meta, is_meta, h4) = or_raise-eq-ok loaded _ _ _ h3 in
    record {
      email_valid = email_valid;
      well_formed = well_formed;
      meta = meta;
      stored = rw is_meta at got;
      accepted = check-IsAccepted env (normalized email) (trim_space code) meta _ h4;
    }

-- The code in the mail, and in Redis for the configured lifetime from the time of saving: a record of the
-- code that expires so long after its creation, with no failed attempt and five guesses.
pub record IsDelivered {C : Type 0} (env : Env C) (email : Str) (before later : World C)
    : Type 0 where
  pub code : Str
  pub mailed : later.outbox ≡ before.outbox ++ record { to = email; token = code } ∷ []
  pub stored :
      (t : ℕ)
      → ltb t (env.clock (before.calls + 1 + 1) + env.config.otp_ttl) ≡ true
      → env.redis.get later.cache t (email_code_key email)
        ≡ some (
            otp (record {
              code = code;
              created_at = env.clock (before.calls + 1);
              expires_at = env.clock (before.calls + 1) + env.config.otp_ttl;
              attempts = 0;
              max_attempts = 5;
            }))

-- Where the code of a sign-up could be stored and sent, the mail carries the code that Redis answers for
-- the email for the configured lifetime from the time of saving; its record expires that lifetime after
-- its creation, has no failed attempt, and allows five guesses.
pub store_and_send-IsDelivered :
    {C : Type 0} (env : Env C) (email : Str) (w : World C)
    → (store_and_send env email w).0 ≡ ok tt
    → IsDelivered env email w (store_and_send env email w).1
unfolding store_and_send draw now save_verification_code cache_set send_mail ◌>>=◌
store_and_send-IsDelivered env email w h = elim (Bool-cases (env.cache_fails (w.calls + 1 + 1))) [
  | inl down ↦ (let bad = rw down at h in cc)
  | inr up ↦ elim (Bool-cases (env.mail_fails (w.calls + 1 + 1 + 1))) [
    | inl lost ↦ (let bad = rw (up, lost) at h in cc)
    | inr sent ↦
        rw (up, sent)
          (record {
            code = env.random_code w.calls;
            mailed = refl;
            stored =
                λ t alive. rw (env.redis.get-set, str_eq_refl (email_code_key email), alive) refl;
          })
  ]
]
