-- ===== src/Lib.antt =====
-- An authentication service: a Go HTTP API over PostgreSQL and Redis. Handlers call the services of
-- internal/services; these read and write the tables through internal/db/postgres, keep sessions,
-- refresh tokens and one-time codes in Redis through internal/auth, and send mail.
--
-- A service is a state-passing action (Exec) on a world (Platform): the tables, the Redis store, the
-- mail sent, and the number of external calls so far. The environment says of the i-th call what the
-- clock reads and whether the database, Redis or the mailer fails; argon2, base64, SHA-256, AES-GCM,
-- the JWT library, UUIDs, the TOTP generator and randomness are its functions. A call that fails leaves its
-- store as it was. What was written before an error stays written, but for a transaction.
--
-- Prelude and its modules: strings as lists of bytes, list operations, tests on numbers.
-- Exec: functions that return (T, error); its modules give invariants and results of actions.
-- Model: internal/utils/error_codes.go, and the rows of internal/db/postgres/models.go.
-- Cache: Redis as an interface, GET, SET with a lifetime, and DEL with their laws, and a list that
--   has them.
-- Platform: the world, the external calls, and WithTx of internal/db/postgres/with_tx.go.
-- Database: the statements of internal/db/postgres/*.sql.go, as functions on lists of rows; a
--   lookup returns the first row that fits, an UPDATE changes every row that fits.
-- Auth: internal/auth and internal/utils/validations.go: tokens, sessions, passwords, TOTP, codes.
-- Services.Login: internal/services/login_service.go.
-- Services.Refresh: refresh_token_service.go and logout_service.go.
-- Services.Passwords: password_reset_service.go and change_password_service.go, with their
--   transactions in internal/db/postgres.
-- Services.Mfa: VerifyMFALogin and the disabling of factors, of mfa_service.go and
--   mfa_email_service.go.
-- Services.Enrollment: the enrolment of TOTP and email factors, recovery codes and the delivery of
--   MFA codes, of the same files, with the transactions of internal/db/postgres/mfa.go.
-- Services.Signup: start_email_verification_service.go, verify_email_code_service.go and
--   complete_email_join_service.go, with the transaction of internal/db/postgres/user.go.
-- Services.Sso: sso_service.go, from the claims of an accepted token on.
-- Services.Passkeys: passkey_service.go, with auth/webauthn_session.go and auth/webauthn_user.go; the
--   ceremonies of the WebAuthn library are a parameter of it.
-- Services.Admin: the actions of admin_service.go; Services.Admin.Listing its pages of users and of
--   the audit log.
-- Http: internal/server/routes.go, JWTMiddleware of internal/middleware/jwt.go, and requireRole of
--   internal/handlers/admin.go.
-- Http.RateLimit: internal/middleware/rate_limit.go, with the limiter of a library, json.go, and the
--   order of the middleware in internal/handlers/build_handler_stack.go.
-- Tests: an environment, a small database, and runs of the services.
--
-- A function with several returns is split at them: its parts are named for the step they do and are
-- composed in the order of the source. Loops are recursion on their list, or on the number of rounds
-- that are left: 20 names for SSO, and the configured number of recovery codes.
--
-- Bounds: times are natural numbers of seconds, identifiers are their 128-bit values as naturals,
-- whose 16 digits to the base 256 are the byte array of the source, and integer columns do not
-- overflow; the page of a listing is cut to 32 bits as in the source (Prelude.Integers). Text is
-- that of ASCII where it is trimmed or changed in case.
--
-- Not modelled: what database triggers write besides, logging, the handlers and the other
-- middleware, the verification of OIDC tokens, the mail templates, maintenance jobs, and the
-- configuration. A column with a default, and one that no query reads, is left out of its table.
pub mod Prelude
pub mod Exec
pub mod Model
pub mod Cache
pub mod Platform
pub mod Database
pub mod Auth
pub mod Services
pub mod Http
pub mod Tests
