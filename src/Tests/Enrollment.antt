-- ===== src/Tests/Enrollment.antt =====
-- Enrolments at concrete inputs.
use mathlib.Core.Path.{subst}
use mathlib.Core.Option.{some-injective}
use golang_auth_api.Prelude.{
  ◌≡◌, refl, ap, ℕ, zero, suc, some, [], ◌∷◌, ◌++◌, length, codes, str_eq, find, trim_space, join,
  any, keep, update_where, Str, List, Bool, true, false, ◌+◌,
}
use golang_auth_api.Exec.{Result, ok, err, ◌>>=◌}
use golang_auth_api.Model.Errors.{ErrorDetail}
use golang_auth_api.Cache.{Entry}
use golang_auth_api.Database.Mfa.{get_factor_by_user_id, record_totp_success}
use golang_auth_api.Auth.Totp.{validate_totp_code, generate_mfa_recovery_code, groups_of_four}
use golang_auth_api.Services.Common.{attempt}
use golang_auth_api.Database.Mfa.Enrollment.{
  verify_factor, create_mfa_recovery_code, delete_mfa_recovery_codes_by_factor,
}
use golang_auth_api.Auth.Jwt.{hash_opaque_token}
use golang_auth_api.Platform.{Env}
use golang_auth_api.Platform.Calls.{draw, query, now, with_tx, statement, settle}
use golang_auth_api.Platform.Transactions.{Atomic}
use golang_auth_api.Auth.Encryption.{
  HasCryptoLaws, encrypt_mfa_secret, decrypt_mfa_secret, decrypt-encrypt,
}
use golang_auth_api.Services.Enrollment.{
  generate_recovery_codes, create_recovery_codes, enroll_mfa, complete_mfa_enrollment,
  complete_otp_factor_enrollment, verify_mfa_enrollment,
}
use golang_auth_api.Services.Enrollment.Pending.{EnrollOutcome, enroll_mfa-EnrollOutcome}
use golang_auth_api.Services.Enrollment.Completion.{
  IsEnrolled, IsTotpEnrolled, complete_mfa_enrollment-Atomic, complete_otp_factor_enrollment-Atomic,
}
use golang_auth_api.Services.Enrollment.Verified.{
  VerifyOutcome, verify_mfa_enrollment-VerifyOutcome,
}
use golang_auth_api.Tests.Data.{
  test_env, crypto_env, zeros, plain_world, pending_world, email_world,
}

length-zeros : (n : ℕ) → length (zeros n) ≡ n
length-zeros zero = refl
length-zeros (suc n) = ap suc (length-zeros n)

-- The stand-ins have the laws.
crypto_env-HasCryptoLaws : HasCryptoLaws crypto_env
crypto_env-HasCryptoLaws = record {
  decode-encode = λ s. refl;
  random_length =
      λ n i s h. subst (λ t. length t ≡ n) (some-injective (zeros n) s h) (length-zeros n);
  unseal-seal = λ key gcm nonce plain h size.
      subst (λ g. g.unseal nonce (g.seal nonce plain) ≡ some plain) (some-injective _ gcm h) refl;
}

encrypt_test :
    (encrypt_mfa_secret crypto_env (codes "sec") plain_world).0 ≡ ok (zeros 3 ++ codes "sec")
unfolding encrypt_mfa_secret draw ◌>>=◌
encrypt_test = refl

decrypt-encrypt_example :
    decrypt_mfa_secret crypto_env (zeros 3 ++ codes "sec") ≡ some (codes "sec")
decrypt-encrypt_example =
    decrypt-encrypt crypto_env crypto_env-HasCryptoLaws (codes "sec") plain_world encrypt_test

enroll_mfa_example :
    EnrollOutcome crypto_env
      (codes "u1")
      plain_world.db
      (enroll_mfa crypto_env (codes "u1") (codes "ann") plain_world)
enroll_mfa_example =
    enroll_mfa-EnrollOutcome crypto_env crypto_env-HasCryptoLaws (codes "u1") (codes "ann")
      plain_world

-- Every draw is another one, so that no recovery code comes twice.
abbrev fresh_env : Env (List Entry)
fresh_env = record test_env {
  random_bytes = λ n i. some (i ∷ codes "rnd");
  random_uuid = λ i. 100 + i;
}

abbrev succeeds : Result ErrorDetail (List Str) → Bool
succeeds (ok codes_given) = true
succeeds (err e) = false

verify_mfa_enrollment_test :
    succeeds (verify_mfa_enrollment fresh_env (codes "u1") (codes "c! ") pending_world).0 ≡ true
unfolding verify_mfa_enrollment ◌>>=◌ str_eq query get_factor_by_user_id find decrypt_mfa_secret now
    validate_totp_code trim_space generate_recovery_codes attempt generate_mfa_recovery_code draw
    complete_mfa_enrollment with_tx statement verify_factor record_totp_success hash_opaque_token
    create_mfa_recovery_code delete_mfa_recovery_codes_by_factor settle join any keep update_where
    create_recovery_codes groups_of_four
verify_mfa_enrollment_test = refl

verify_mfa_enrollment_example :
    VerifyOutcome fresh_env
      (codes "u1")
      (codes "c! ")
      pending_world.db
      (verify_mfa_enrollment fresh_env (codes "u1") (codes "c! ") pending_world)
verify_mfa_enrollment_example =
    verify_mfa_enrollment-VerifyOutcome fresh_env (codes "u1") (codes "c! ") pending_world

complete_mfa_enrollment_example :
    Atomic
      (IsTotpEnrolled 21 33 (codes "h" ∷ []))
      pending_world.db
      (complete_mfa_enrollment test_env 21 33 (codes "h" ∷ []) pending_world)
complete_mfa_enrollment_example =
    complete_mfa_enrollment-Atomic test_env 21 33 (codes "h" ∷ []) pending_world

complete_otp_factor_enrollment_example :
    Atomic
      (IsEnrolled 22 (codes "h" ∷ []))
      email_world.db
      (complete_otp_factor_enrollment test_env 22 (codes "h" ∷ []) email_world)
complete_otp_factor_enrollment_example =
    complete_otp_factor_enrollment-Atomic test_env 22 (codes "h" ∷ []) email_world
