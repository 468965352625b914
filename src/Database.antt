-- ===== src/Database.antt =====
-- The queries of internal/db/postgres/*.sql.go (generated by sqlc from db/queries/*.sql), as
-- functions on the tables. The triggers of db/migrations are not modelled.
pub mod Identities
pub mod Sessions
pub mod Users
pub mod Mfa
pub mod Resets
pub mod Logs
pub mod Accounts
pub mod Passkeys
pub mod Listing
