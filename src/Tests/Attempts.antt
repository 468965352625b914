-- ===== src/Tests/Attempts.antt =====
-- A wrong guess at the code of an email factor.
use golang_auth_api.Prelude.{◌≡◌, refl, false, some, codes, str_eq, trim_space, Str}
use golang_auth_api.Cache.{otp, entry_get}
use golang_auth_api.Auth.OtpCode.{mfa_otp_code_key}
use golang_auth_api.Services.Login.{method_email}
use golang_auth_api.Services.Mfa.{purpose_login, constant_time_equal}
use golang_auth_api.Services.Enrollment.Email.{verify_mfa_otp_code}
use golang_auth_api.Services.Enrollment.Attempts.{IsCounted, verify_mfa_otp_code-IsCounted}
use golang_auth_api.Tests.Data.{test_env, email_world, ann_code}

abbrev ann_key : Str
ann_key = mfa_otp_code_key method_email purpose_login (codes "u1")

held_test : entry_get email_world.cache 1000 ann_key ≡ some (otp ann_code)
unfolding entry_get str_eq
held_test = refl

wrong_test : constant_time_equal (trim_space (codes "654321")) ann_code.code ≡ false
unfolding trim_space str_eq
wrong_test = refl

verify_mfa_otp_code_example : IsCounted test_env ann_key ann_code 1002 (
    verify_mfa_otp_code test_env method_email purpose_login
      (codes "u1")
      22
      (codes "654321")
      email_world)
verify_mfa_otp_code_example =
    verify_mfa_otp_code-IsCounted test_env method_email purpose_login (codes "u1") 22
      (codes "654321") ann_code email_world refl held_test refl refl refl wrong_test
