-- ===== src/Auth/Encryption.antt =====
-- internal/auth/mfa_encryption.go: the TOTP secrets at rest.
use mathlib.Core.Path.{subst}
use golang_auth_api.Prelude.{
  ℕ, sym, ◌∙◌, ◌≡◌, refl, false, ltb, arith, Option, none, some, ◌++◌, if◌then◌else◌, length, take,
  drop, Str,
}
use golang_auth_api.Prelude.Lists.{take-append, drop-append, length-append}
use golang_auth_api.Exec.{ok, pure, ◌>>=◌, or_raise-eq-ok, pure-eq-ok}
use golang_auth_api.Platform.{Env, World, Gcm}
use golang_auth_api.Platform.Calls.{draw}
use golang_auth_api.Auth.Jwt.{Fallible, present}

-- The nonce is the front of the stored text.
abbrev pub open_sealed : Gcm → Str → Option Str
open_sealed gcm raw =
    if ltb (length raw) gcm.nonce_size
    then none
    else gcm.unseal (take gcm.nonce_size raw) (drop gcm.nonce_size raw)

abbrev pub decrypt_raw : Option Gcm → Option Str → Option Str
decrypt_raw none raw = none
decrypt_raw (some gcm) none = none
decrypt_raw (some gcm) (some raw) = open_sealed gcm raw

module _ {C : Type 0} (env : Env C) where
  -- mfaGCM
  unfoldable pub mfa_gcm : Option Gcm
  mfa_gcm = env.aes_gcm env.config.mfa_encryption_key

  -- EncryptMFASecret
  unfoldable pub encrypt_mfa_secret : Str → Fallible C Str
  unfolding mfa_gcm
  encrypt_mfa_secret plaintext = do
    gcm ← present mfa_gcm
    drawn ← draw env (env.random_bytes gcm.nonce_size)
    nonce ← present drawn
    pure (env.base64_url (nonce ++ gcm.seal nonce plaintext))

  -- DecryptMFASecret
  unfoldable pub decrypt_mfa_secret : Str → Option Str
  unfolding mfa_gcm
  decrypt_mfa_secret encoded = decrypt_raw mfa_gcm (env.base64_url_decode encoded)

-- What the documentation of crypto/cipher, crypto/rand and encoding/base64 says.
pub record HasCryptoLaws {C : Type 0} (env : Env C) : Type 0 where
  pub decode-encode : (s : Str) → env.base64_url_decode (env.base64_url s) ≡ some s
  pub random_length : (n i : ℕ) (s : Str) → env.random_bytes n i ≡ some s → length s ≡ n
  pub unseal-seal :
      (key : Str) (gcm : Gcm) (nonce plain : Str)
      → env.aes_gcm key ≡ some gcm
      → length nonce ≡ gcm.nonce_size
      → gcm.unseal nonce (gcm.seal nonce plain) ≡ some plain

-- A text that begins with a nonce of the right length is long enough.
open_sealed-nonce :
    (gcm : Gcm) (nonce cipher : Str)
    → length nonce ≡ gcm.nonce_size
    → open_sealed gcm (nonce ++ cipher) ≡ gcm.unseal nonce cipher
open_sealed-nonce gcm nonce cipher size =
    let long = length-append nonce cipher in
    let enough : ltb (length (nonce ++ cipher)) gcm.nonce_size ≡ false = ground arith in
    rw (enough, sym size, take-append nonce cipher, drop-append nonce cipher) refl

module _ {C : Type 0} (env : Env C) (laws : HasCryptoLaws env) (plain : Str) where
  decrypt-printed :
      (gcm : Gcm) (nonce : Str)
      → mfa_gcm env ≡ some gcm
      → length nonce ≡ gcm.nonce_size
      → decrypt_mfa_secret env (env.base64_url (nonce ++ gcm.seal nonce plain)) ≡ some plain
  unfolding decrypt_mfa_secret mfa_gcm
  decrypt-printed gcm nonce is_gcm size =
      rw (is_gcm, laws.decode-encode, open_sealed-nonce gcm nonce (gcm.seal nonce plain) size)
        (laws.unseal-seal env.config.mfa_encryption_key gcm nonce plain is_gcm size)

  sealed-decrypts :
      (gcm : Gcm) (drawn : Option Str) (i : ℕ) (w : World C) {stored : Str}
      → mfa_gcm env ≡ some gcm
      → env.random_bytes gcm.nonce_size i ≡ drawn
      → ((present drawn >>= λ nonce. pure (env.base64_url (nonce ++ gcm.seal nonce plain))) w).0
        ≡ ok stored
      → decrypt_mfa_secret env stored ≡ some plain
  sealed-decrypts gcm drawn i w is_gcm random h =
      let (nonce, is_nonce, last) = or_raise-eq-ok drawn _ _ w h in
      subst (λ s. decrypt_mfa_secret env s ≡ some plain) (pure-eq-ok _ w last)
        (decrypt-printed gcm nonce is_gcm
          (laws.random_length gcm.nonce_size i nonce (random ∙ is_nonce)))

-- A secret that EncryptMFASecret has encrypted is what DecryptMFASecret reads from the result, where
-- AES-GCM opens what it sealed, random bytes have the length that was asked for, and base64 decodes
-- what it encoded.
pub decrypt-encrypt :
    {C : Type 0} (env : Env C) (laws : HasCryptoLaws env) (plain : Str) (w : World C) {stored : Str}
    → (encrypt_mfa_secret env plain w).0 ≡ ok stored
    → decrypt_mfa_secret env stored ≡ some plain
unfolding encrypt_mfa_secret draw ◌>>=◌
decrypt-encrypt env laws plain w h =
    let (gcm, is_gcm, rest) = or_raise-eq-ok _ _ _ w h in
    sealed-decrypts env laws plain gcm (env.random_bytes gcm.nonce_size w.calls) w.calls _ is_gcm
      refl rest
