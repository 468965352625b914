-- ===== src/Tests.antt =====
-- Test data, and runs of the services at concrete inputs.
pub mod Data
pub mod Logins
pub mod Stores
pub mod Factors
pub mod Requests
pub mod Enrollment
pub mod Signup
pub mod Passkeys
pub mod Limits
pub mod Attempts
