-- ===== src/Platform.antt =====
-- The world in which the services run: the database, the Redis store, the mail that was sent, and
-- the external calls so far. What is not code of the repository is the parameter `Env`: the clock,
-- the faults of the two stores and of the mailer, randomness, cryptography, and the configuration.
pub mod Calls
pub mod CallLaws
pub mod Transactions
pub mod Frame
use golang_auth_api.Prelude.{ℕ, Bool, Option, none, some, List, Str}
use golang_auth_api.Exec.{Exec}
use golang_auth_api.Model.Errors.{ErrorDetail}
use golang_auth_api.Model.Rows.{Database}
use golang_auth_api.Cache.{Redis}

-- entities.JWTClaims with the registered claims
pub record JwtClaims : Type 0 where
  pub user_id : Str
  pub username : Str
  pub role : Str
  pub subject : Str
  pub issuer : Str
  pub audience : List Str
  pub id : Str
  pub expires_at : Option ℕ
  pub issued_at : Option ℕ
  pub not_before : Option ℕ

-- config.Config, as far as the services read it
pub record Config : Type 0 where
  pub otp_ttl : ℕ
  pub access_ttl : ℕ
  pub refresh_ttl : ℕ
  pub temporary_token_ttl : ℕ
  pub login_max_failed_attempts : ℕ
  pub login_lock_duration : ℕ
  pub password_reset_ttl : ℕ
  pub mfa_challenge_ttl : ℕ
  pub mfa_recovery_code_count : ℕ
  pub mfa_issuer : Str
  pub mfa_encryption_key : Str
  pub active_pepper_id : Str
  pub peppers : List (Str × Str)

-- cipher.AEAD of crypto/cipher: the ciphertext of a nonce and a plaintext, and its plaintext again.
pub record Gcm : Type 0 where
  pub nonce_size : ℕ
  pub seal : Str → Str → Str
  pub unseal : Str → Str → Option Str

-- External calls are numbered; what the i-th one finds is a function of `i`.
pub record Env (C : Type 0) : Type 0 where
  pub config : Config
  pub redis : Redis C
  pub clock : ℕ → ℕ
  pub db_fails : ℕ → Bool
  pub cache_fails : ℕ → Bool
  pub mail_fails : ℕ → Bool
  -- crypto/rand: RandomToken, a recovery code's bytes, a salt; utils.GenerateCode; uuid.New
  pub random_bytes : ℕ → ℕ → Option Str
  pub random_code : ℕ → Str
  pub random_uuid : ℕ → ℕ
  -- uuid.Parse and UUID.String
  pub parse_uuid : Str → Option ℕ
  pub show_uuid : ℕ → Str
  -- base64.RawURLEncoding, base64.RawStdEncoding, base32 without padding
  pub base64_url : Str → Str
  pub base64_url_decode : Str → Option Str
  pub base64_encode : Str → Str
  pub base64_decode : Str → Option Str
  pub base32_encode : Str → Str
  pub sha256 : Str → Str
  -- argon2.IDKey: password, salt, time, memory, threads, length of the key
  pub argon2_id_key : Str → Str → ℕ → ℕ → ℕ → ℕ → Str
  -- aes.NewCipher and cipher.NewGCM of a key
  pub aes_gcm : Str → Option Gcm
  -- totp.Generate for an issuer and an account: the secret and its URI; totp.GenerateCodeCustom at a
  -- time step
  pub generate_totp_key : Str → Str → ℕ → Option (Str × Str)
  pub generate_totp_code : Str → ℕ → Option Str
  -- SignedString; ParseWithClaims with and without the validation of the claims
  pub sign_jwt : JwtClaims → Option Str
  pub parse_jwt_claims : ℕ → Str → Option JwtClaims
  pub parse_jwt_signature : Str → Option JwtClaims

pub record Mail : Type 0 where
  pub to : Str
  pub token : Str

pub record World (C : Type 0) : Type 0 where
  pub db : Database
  pub cache : C
  pub outbox : List Mail
  pub calls : ℕ

-- What a query returns: `err == nil`, `errors.Is(err, pgx.ErrNoRows)`, or any other error.
pub data Reply (A : Type 0) : Type 0 where
  found : A → Reply A
  no_rows : Reply A
  failed : Reply A

abbrev pub reply_of : {A : Type 0} → Option A → Reply A
reply_of none = no_rows
reply_of (some a) = found a

-- A service: `(T, *utils.ErrorDetail)`.
abbrev pub Service : Type 0 → Type 0 → Type 0
Service C A = Exec (World C) ErrorDetail A
