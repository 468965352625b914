-- ===== src/Auth.antt =====
-- internal/auth and internal/utils/validations.go.
pub mod Validations
pub mod Session
pub mod Jwt
pub mod Password
pub mod Totp
pub mod OtpCode
pub mod Encryption
