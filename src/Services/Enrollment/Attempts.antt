-- ===== src/Services/Enrollment/Attempts.antt =====
-- What a wrong code leaves behind in the enrolment of an email factor.
use golang_auth_api.Prelude.{
  ◌+◌, ◌≡◌, refl, ℕ, true, false, Bool-cases, inl, inr, ltb, leb, some, Str, str_eq_refl,
  trim_space,
}
use golang_auth_api.Exec.{Result, err, ◌>>=◌}
use golang_auth_api.Model.Errors.{ErrorDetail, invalid_mfa_code}
use golang_auth_api.Model.Rows.{OtpMeta}
use golang_auth_api.Cache.{otp}
use golang_auth_api.Platform.{Env, World}
use golang_auth_api.Platform.Calls.{now, cache_get, cache_set, statement}
use golang_auth_api.Auth.OtpCode.{mfa_otp_code_key, get_mfa_otp_code, save_mfa_otp_code}
use golang_auth_api.Services.Mfa.{constant_time_equal}
use golang_auth_api.Services.Enrollment.Email.{check_otp_code, verify_mfa_otp_code}

-- While Redis answers, a wrong guess at a live code is refused and counted.
pub record IsCounted {C : Type 0} (env : Env C) (key : Str) (meta : OtpMeta) (saved : ℕ)
    (after : Result ErrorDetail (Unit {0}) × World C) : Type 0 where
  pub refused : after.0 ≡ err invalid_mfa_code
  pub counted :
      (t : ℕ)
      → ltb t (saved + env.config.otp_ttl) ≡ true
      → env.redis.get after.1.cache t key
        ≡ some (otp (record meta { attempts = meta.attempts + 1 }))

module _ {C : Type 0} (env : Env C) (channel purpose user_id : Str) (factor_id : ℕ)
    (code : Str) where
  -- The guess at a live code that was found in Redis.
  check_otp_code-IsCounted :
      (meta : OtpMeta) (w : World C)
      → env.cache_fails (w.calls + 1) ≡ false
      → leb (env.clock w.calls) meta.expires_at ≡ true
      → ltb meta.attempts meta.max_attempts ≡ true
      → constant_time_equal (trim_space code) meta.code ≡ false
      → IsCounted env
          (mfa_otp_code_key channel purpose user_id)
          meta
          (env.clock (w.calls + 1))
          (check_otp_code env channel purpose user_id factor_id code meta w)
  unfolding check_otp_code now save_mfa_otp_code cache_set statement ◌>>=◌
  check_otp_code-IsCounted meta w up in_time left wrong =
      elim (Bool-cases (env.db_fails (w.calls + 1 + 1))) [
        | inl down ↦
            rw (in_time, left, wrong, up, down)
              (record {
                refused = refl;
                counted = λ t alive.
                    rw
                      (
                        env.redis.get-set,
                        str_eq_refl (mfa_otp_code_key channel purpose user_id),
                        alive,
                      )
                      refl;
              })
        | inr works ↦
            rw (in_time, left, wrong, up, works)
              (record {
                refused = refl;
                counted = λ t alive.
                    rw
                      (
                        env.redis.get-set,
                        str_eq_refl (mfa_otp_code_key channel purpose user_id),
                        alive,
                      )
                      refl;
              })
      ]

  -- A wrong guess at a code of an email factor that Redis holds, that has not expired and has guesses
  -- left, gets InvalidMFACode where Redis works; until the lifetime of the new record is over, Redis
  -- then answers the same code with one attempt more.
  pub verify_mfa_otp_code-IsCounted :
      (meta : OtpMeta) (w : World C)
      → env.cache_fails w.calls ≡ false
      → env.redis.get w.cache (env.clock w.calls) (mfa_otp_code_key channel purpose user_id)
        ≡ some (otp meta)
      → env.cache_fails (w.calls + 1 + 1) ≡ false
      → leb (env.clock (w.calls + 1)) meta.expires_at ≡ true
      → ltb meta.attempts meta.max_attempts ≡ true
      → constant_time_equal (trim_space code) meta.code ≡ false
      → IsCounted env
          (mfa_otp_code_key channel purpose user_id)
          meta
          (env.clock (w.calls + 1 + 1))
          (verify_mfa_otp_code env channel purpose user_id factor_id code w)
  unfolding verify_mfa_otp_code get_mfa_otp_code cache_get ◌>>=◌
  verify_mfa_otp_code-IsCounted meta w works held up in_time left wrong =
      rw (works, held)
        (check_otp_code-IsCounted meta (record w { calls = w.calls + 1 }) up in_time left wrong)
