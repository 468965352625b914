-- ===== src/Services/Sso.antt =====
-- internal/services/sso_service.go, with CreateSSOUserAndIdentity of internal/db/postgres/sso.go. The
-- claims are those of a token that VerifyOIDCToken has accepted.
pub mod Username
pub mod Session
pub mod Registered
pub mod Trusted
use mathlib.Core.List.{reverse}
use golang_auth_api.Prelude.{
  ℕ, zero, suc, ◌+◌, ◌-◌, Bool, true, false, not, ◌||◌, ltb, ◌==◌, Option, none, some, List, [],
  ◌∷◌, ◌++◌, if◌then◌else◌, length, take, keep, is_some, Str, codes, is_empty,
}
use golang_auth_api.Exec.{pure, raise, ◌>>=◌, ◌>>◌}
use golang_auth_api.Model.Errors.{
  internal_server_error, account_not_usable, sso_email_not_verified, sso_account_conflict,
}
use golang_auth_api.Model.Rows.{UserRole, UserOrigin, ProviderName}
use golang_auth_api.Platform.{Env, Service, Reply, found, no_rows, failed, reply_of}
use golang_auth_api.Platform.Calls.{Tx, must, draw, query, statement, with_tx_value}
use golang_auth_api.Database.Identities.{EmailAuth}
use golang_auth_api.Database.Users.{username_exists}
use golang_auth_api.Database.Accounts.{
  create_sso_user, create_sso_identity, get_identity_by_provider, get_user_id_by_email,
}
use golang_auth_api.Auth.Jwt.{Fallible}
use golang_auth_api.Auth.Validations.{is_alnum}
use golang_auth_api.Services.Common.{RequestMeta, attempt, require, or_raise}
use golang_auth_api.Services.Login.{LoginResult, issue_login_session}
use golang_auth_api.Services.Passwords.{is_unusable}

-- auth.OIDCClaims
pub record OidcClaims : Type 0 where
  pub subject : Str
  pub email : Str
  pub email_verified : Bool

-- strings.Cut(email, "@"): the part before, if there is an "@"
unfoldable pub local_part : Str → Option Str
local_part [] = none
local_part (c ∷ cs) =
    let rest = local_part cs in
    if c == b'@' then some [] else (elim rest [ none ↦ none | some s ↦ some (c ∷ s) ])

abbrev pub is_edge : ℕ → Bool
is_edge c = c == b'.' || c == b'_'

-- [a-zA-Z0-9._]
abbrev pub is_allowed : ℕ → Bool
is_allowed c = is_alnum c || is_edge c

unfoldable pub trim_edges_left : Str → Str
trim_edges_left [] = []
trim_edges_left (c ∷ cs) = let rest = trim_edges_left cs in if is_edge c then rest else c ∷ cs

-- strings.Trim(base, "._")
unfoldable pub trim_edges : Str → Str
unfolding trim_edges_left
trim_edges s = reverse (trim_edges_left (reverse (trim_edges_left s)))

-- The local part, or "user" for none or an empty one.
abbrev pub local_or_user : Option Str → Str
local_or_user none = codes "user"
local_or_user (some s) = if is_empty s then codes "user" else s

abbrev pub shortened : Str → Str
shortened s = if ltb 24 (length s) then take 24 s else s

abbrev pub lengthened : Str → Str
lengthened s = if ltb (length s) 2 then codes "user" ++ s else s

-- The local part without the other bytes, and without dots and underscores at its ends.
unfoldable pub sanitized : Str → Str
unfolding local_part trim_edges
sanitized email = trim_edges (keep is_allowed (local_or_user (local_part email)))

unfoldable pub username_base : Str → Str
unfolding sanitized
username_base email = lengthened (shortened (sanitized email))

-- The digits of a number below 20.
abbrev pub digits : ℕ → Str
digits n = if ltb n 10 then (b'0' + n) ∷ [] else b'1' ∷ (b'0' + (n - 10)) ∷ []

unfoldable pub candidate : Str → ℕ → Str
candidate base attempt = if attempt == 0 then base else base ++ digits attempt

module _ {C : Type 0} (env : Env C) where
  -- The loop over the attempts, with so many to go.
  unfoldable pub first_free : Str → ℕ → ℕ → Fallible C Str
  unfolding candidate
  first_free base attempt zero = raise tt
  first_free base attempt (suc n) = do
    exists ← query env (λ t db. found (username_exists (candidate base attempt) db))
    taken ← must exists
    let rest = first_free base (suc attempt) n
    if taken then rest else pure (candidate base attempt)

  -- generateUniqueUsernameFromEmail
  unfoldable pub generate_unique_username_from_email : Str → Fallible C Str
  unfolding first_free username_base
  generate_unique_username_from_email email = first_free (username_base email) 0 20

  -- CreatedSSOUser
  pub record CreatedSsoUser : Type 0 where
    pub user_id : ℕ
    pub identity_id : ℕ
    pub username : Str

  -- CreateSSOUserAndIdentity
  unfoldable pub create_sso_user_and_identity :
      Str → Str → UserOrigin → ProviderName → Str → Service C (Option CreatedSsoUser)
  create_sso_user_and_identity email username origin provider subject = with_tx_value env (do
    id ← draw env env.random_uuid
    created ← statement env (create_sso_user id email username origin)
    user ← must created
    fresh ← draw env env.random_uuid
    added ← statement env (create_sso_identity fresh user.id provider subject)
    identity_id ← must added
    pure (record { user_id = user.id; identity_id = identity_id; username = user.username }))

  module _ (meta : RequestMeta) (provider : ProviderName) (origin : UserOrigin)
      (claims : OidcClaims) where
    -- A new account, where no user has the email.
    unfoldable pub register_sso : Reply ℕ → Service C LoginResult
    register_sso (found id) = raise sso_account_conflict
    register_sso failed = raise internal_server_error
    register_sso no_rows = do
      named ← attempt (generate_unique_username_from_email claims.email)
      username ← or_raise named internal_server_error
      registered ← create_sso_user_and_identity claims.email username origin provider claims.subject
      created ← or_raise registered internal_server_error
      issue_login_session env meta created.user_id (some created.identity_id) created.username
          UserRole.user

    unfoldable pub sso_identity : Reply EmailAuth → Service C LoginResult
    unfolding register_sso
    sso_identity (found identity) = do
      require (not (is_unusable identity)) account_not_usable
      issue_login_session env meta identity.user_id (some identity.identity_id) identity.username
          identity.role
    sso_identity failed = raise internal_server_error
    sso_identity no_rows = do
      reply ← query env (λ t db. reply_of (get_user_id_by_email claims.email db))
      register_sso reply

    -- SSOLogin
    unfoldable pub sso_login : Service C LoginResult
    unfolding sso_identity
    sso_login = do
      require claims.email_verified sso_email_not_verified
      reply ← query env (λ t db. reply_of (get_identity_by_provider provider claims.subject db))
      sso_identity reply
