-- ===== src/Services.antt =====
-- internal/services: the operations behind the HTTP handlers. Log lines are left out.
pub mod Common
pub mod Login
pub mod Refresh
pub mod Passwords
pub mod Mfa
pub mod Enrollment
pub mod Admin
pub mod Signup
pub mod Sso
pub mod Passkeys
