-- ===== src/Auth/OtpCode.antt =====
-- internal/auth/otp_code.go and mfa_otp_code.go: one-time codes in Redis.
use golang_auth_api.Prelude.{Bool, Option, none, some, ◌++◌, Str, codes}
use golang_auth_api.Exec.{Exec, pure, ◌>>=◌}
use golang_auth_api.Model.Rows.{OtpMeta}
use golang_auth_api.Cache.{Value, text, otp}
use golang_auth_api.Platform.{Env, World, Reply, found, no_rows, failed}
use golang_auth_api.Platform.Calls.{cache_get, cache_set, cache_del}
use golang_auth_api.Auth.Session.{email_code_key}

-- mfaOTPCodeKey
abbrev pub mfa_otp_code_key : Str → Str → Str → Str
mfa_otp_code_key channel purpose user_id =
    codes "mfa_otp:" ++ (channel ++ (codes ":" ++ (purpose ++ (codes ":" ++ user_id))))

-- json.Unmarshal of a value that is no record fails.
abbrev pub decode_otp : Reply Value → Option OtpMeta
decode_otp (found (otp meta)) = some meta
decode_otp (found (text s)) = none
decode_otp no_rows = none
decode_otp failed = none

module _ {C : Type 0} (env : Env C) {E : Type 0} where
  unfoldable pub save_otp : Str → OtpMeta → Exec (World C) E Bool
  save_otp key meta = cache_set env key (otp meta) env.config.otp_ttl

  unfoldable pub load_otp : Str → Exec (World C) E (Option OtpMeta)
  load_otp key = do reply ← cache_get env key; pure (decode_otp reply)

  unfoldable pub save_verification_code : Str → OtpMeta → Exec (World C) E Bool
  unfolding save_otp
  save_verification_code email meta = save_otp (email_code_key email) meta

  unfoldable pub get_verification_code : Str → Exec (World C) E (Option OtpMeta)
  unfolding load_otp
  get_verification_code email = load_otp (email_code_key email)

  unfoldable pub save_mfa_otp_code : Str → Str → Str → OtpMeta → Exec (World C) E Bool
  unfolding save_otp
  save_mfa_otp_code channel purpose user_id meta =
      save_otp (mfa_otp_code_key channel purpose user_id) meta

  unfoldable pub get_mfa_otp_code : Str → Str → Str → Exec (World C) E (Option OtpMeta)
  unfolding load_otp
  get_mfa_otp_code channel purpose user_id = load_otp (mfa_otp_code_key channel purpose user_id)

  unfoldable pub delete_mfa_otp_code : Str → Str → Str → Exec (World C) E Bool
  delete_mfa_otp_code channel purpose user_id =
      cache_del env (mfa_otp_code_key channel purpose user_id)
