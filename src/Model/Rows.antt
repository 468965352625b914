-- ===== src/Model/Rows.antt =====
-- internal/db/postgres/models.go and internal/entities: enums, table rows, OTP metadata.
-- A NULL column is `none`; identifiers of rows are their 128-bit values; times are natural numbers
-- of one unit. Columns that no query of the model reads or writes are left out.
use golang_auth_api.Prelude.{ℕ, Bool, true, false, Option, none, some, List, Str}

pub data UserStatus : Type 0 where
  active offline disabled banned : UserStatus

pub data UserOrigin : Type 0 where
  email google apple : UserOrigin

pub data UserRole : Type 0 where
  user moderator admin : UserRole

pub data MfaType : Type 0 where
  totp email sms : MfaType

pub data LoginOutcome : Type 0 where
  success failed locked mfa_required : LoginOutcome

pub data ResetSource : Type 0 where
  web mobile admin : ResetSource

pub data ProviderName : Type 0 where
  email google apple : ProviderName

pub data AuditAction : Type 0 where
  update_user change_role change_status password_reset email_change mfa_change : AuditAction
  user_ban user_unban user_deleted admin_note : AuditAction

pub record User : Type 0 where
  pub id : ℕ
  pub email : Str
  pub username : Str
  pub username_display : Str
  pub status : Option UserStatus
  pub role : UserRole
  pub origin : Option UserOrigin
  pub last_login : Option ℕ
  pub last_seen : Option ℕ
  pub deleted_at : Option ℕ

pub record AuthIdentity : Type 0 where
  pub id : ℕ
  pub user_id : ℕ
  pub provider : ProviderName
  pub provider_user_id : Str
  pub password_hash : Option Str
  pub failed_attempts : ℕ
  pub last_failed_at : Option ℕ
  pub locked_at : Option ℕ
  pub last_login : Option ℕ

pub record Session : Type 0 where
  pub id : ℕ
  pub user_id : ℕ
  pub expires_at : ℕ
  pub refresh_token_hash : Option Str
  pub rotated_at : Option ℕ
  pub revoked : Bool
  pub revoked_at : Option ℕ
  pub ip : Option Str
  pub user_agent : Option Str

pub record MfaFactor : Type 0 where
  pub id : ℕ
  pub user_id : ℕ
  pub kind : MfaType
  pub secret : Option Str
  pub enabled : Bool
  pub verified : Bool
  pub failed_attempts : ℕ
  pub last_used_at : Option ℕ
  pub last_used_step : Option ℕ
  pub created_at : ℕ

pub record MfaRecoveryCode : Type 0 where
  pub id : ℕ
  pub factor_id : ℕ
  pub code_hash : Str
  pub used_at : Option ℕ

pub record PasswordReset : Type 0 where
  pub id : ℕ
  pub user_id : ℕ
  pub reset_token : Str
  pub created_at : ℕ
  pub expires_at : ℕ
  pub used_at : Option ℕ
  pub source : ResetSource

pub record Login : Type 0 where
  pub user_id : Option ℕ
  pub identity_id : Option ℕ
  pub result : LoginOutcome
  pub ip : Option Str
  pub user_agent : Option Str

pub record AuditLog : Type 0 where
  pub actor_id : Option ℕ
  pub actor_username : Option Str
  pub target_user_id : Option ℕ
  pub target_username : Option Str
  pub target_email : Option Str
  pub action : AuditAction
  pub reason : Option Str
  pub ip : Option Str
  pub user_agent : Option Str

pub record WebAuthnCredential : Type 0 where
  pub id : ℕ
  pub user_id : ℕ
  pub credential_id : Str
  pub name : Option Str
  pub credential : Str
  pub created_at : ℕ
  pub last_used_at : Option ℕ

-- entities.OTPMeta
pub record OtpMeta : Type 0 where
  pub code : Str
  pub created_at : ℕ
  pub expires_at : ℕ
  pub attempts : ℕ
  pub max_attempts : ℕ

-- The tables.
pub record Database : Type 0 where
  pub users : List User
  pub auth_identities : List AuthIdentity
  pub sessions : List Session
  pub mfa_factors : List MfaFactor
  pub mfa_recovery_codes : List MfaRecoveryCode
  pub password_resets : List PasswordReset
  pub logins : List Login
  pub audit_logs : List AuditLog
  pub webauthn_credentials : List WebAuthnCredential

-- The test that the services write out before they serve an account:
-- `Status.Valid && (Status == banned || Status == disabled)`.
unfoldable pub is_blocked : Option UserStatus → Bool
is_blocked none = false
is_blocked (some banned) = true
is_blocked (some disabled) = true
is_blocked (some active) = false
is_blocked (some offline) = false
