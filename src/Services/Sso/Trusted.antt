-- ===== src/Services/Sso/Trusted.antt =====
-- Whom SSOLogin lets in.
use mathlib.Core.Path.{subst}
use golang_auth_api.Prelude.{
  ap, sym, zero, suc, ◌≡◌, ◌⊎◌, inl, inr, refl, true, false, not, Bool, Option, none, some,
  if◌then◌else◌, Str, ℕ,
}
use golang_auth_api.Exec.{
  Result, ok, err, raise, raise-ne-ok, ◌>>=◌, holds-bind, holds-require, holds-or_raise,
}
use golang_auth_api.Exec.Preserves.{
  Preserves, Preserves-bind, Preserves-if, Preserves-pure, preserves_rules,
}
use golang_auth_api.Model.Errors.{ErrorDetail, sso_account_conflict, internal_server_error}
use golang_auth_api.Model.Rows.{UserRole, UserOrigin, ProviderName, Database}
use golang_auth_api.Platform.{Env, World, Service, Reply, found, no_rows, failed, reply_of}
use golang_auth_api.Platform.Calls.{must}
use golang_auth_api.Platform.Frame.{HasDatabase, Preserves-query, holds-query}
use golang_auth_api.Platform.Transactions.{AtomicValue}
use golang_auth_api.Database.Identities.{EmailAuth}
use golang_auth_api.Database.Accounts.{get_identity_by_provider, get_user_id_by_email}
use golang_auth_api.Services.Common.{RequestMeta, attempt, or_raise}
use golang_auth_api.Services.Login.{LoginResult, issue_login_session}
use golang_auth_api.Services.Passwords.{is_unusable}
use golang_auth_api.Services.Passwords.Outcome.{Preserves-attempt}
use golang_auth_api.Services.Sso.{
  OidcClaims, CreatedSsoUser, first_free, generate_unique_username_from_email,
  create_sso_user_and_identity, register_sso, sso_identity, sso_login,
}
use golang_auth_api.Services.Sso.Session.{SameAccounts, issue_login_session-SameAccounts}
use golang_auth_api.Services.Sso.Registered.{IsRegisteredFrom, create_sso-AtomicValue}

-- The identity of the provider's subject, whose account is neither deleted nor banned or disabled.
pub record IsKnown (provider : ProviderName) (subject : Str) (db : Database) : Type 0 where
  pub identity : EmailAuth
  pub of_subject : get_identity_by_provider provider subject db ≡ some identity
  pub usable : not (is_unusable identity) ≡ true

-- A subject that has no identity, with an email that no user has.
pub record IsNew (provider : ProviderName) (claims : OidcClaims) (db : Database) : Type 0 where
  pub no_identity : get_identity_by_provider provider claims.subject db ≡ none
  pub no_user : get_user_id_by_email claims.email db ≡ none

-- A new user with the email and a new identity of that user have been added, and nothing else.
pub record HasRegistered {C : Type 0} (env : Env C) (provider : ProviderName) (origin : UserOrigin)
    (claims : OidcClaims) (before later : Database) : Type 0 where
  pub username : Str
  pub created : CreatedSsoUser env
  pub committed : Database
  pub registered :
      IsRegisteredFrom env claims.email username origin provider claims.subject before created
        committed
  pub accounts : SameAccounts committed later

-- A login to an identity that leaves the identities and the users that there are, or a registration.
abbrev pub IsTrusted :
    {C : Type 0} → Env C → ProviderName → UserOrigin → OidcClaims → Database → Database → Type 0
IsTrusted env provider origin claims before later =
    (claims.email_verified ≡ true)
    × ((IsKnown provider claims.subject before × SameAccounts before later)
        ⊎ (IsNew provider claims before × HasRegistered env provider origin claims before later))

module _ {C : Type 0} (env : Env C) where
  Preserves-must :
      {A : Type 0} (d : Database) (r : Reply A) → Preserves {S = World C} (HasDatabase d) (must r)
  Preserves-must d (found a) = search preserves_rules
  Preserves-must d no_rows = search preserves_rules
  Preserves-must d failed = search preserves_rules

  Preserves-first_free :
      (d : Database) (base : Str) (round n : ℕ)
      → Preserves (HasDatabase d) (first_free env base round n)
  unfolding first_free
  Preserves-first_free d base round zero = search preserves_rules
  Preserves-first_free d base round (suc n) =
      let rest = Preserves-first_free d base (suc round) n in
      Preserves-bind _ _ (Preserves-query env _) (λ exists.
        Preserves-bind _ _ (Preserves-must d exists)
          (λ taken. Preserves-if taken rest (Preserves-pure _)))

  Preserves-generate :
      (d : Database) (email : Str)
      → Preserves (HasDatabase d) (generate_unique_username_from_email env email)
  unfolding generate_unique_username_from_email
  Preserves-generate d email = Preserves-first_free d _ 0 20

  module _ (meta : RequestMeta) (provider : ProviderName) (origin : UserOrigin)
      (claims : OidcClaims) (db : Database) (verified : claims.email_verified ≡ true) where
    -- If the run has succeeded, it is trusted.
    abbrev TrustedIfOk : Result ErrorDetail LoginResult × World C → Type 0
    TrustedIfOk x = (r : LoginResult) → x.0 ≡ ok r → IsTrusted env provider origin claims db x.1.db

    raised : (e : ErrorDetail) (w : World C) → TrustedIfOk (raise e w)
    raised e w r h = absurd (raise-ne-ok e w h)

    stopped : (e : ErrorDetail) (w : World C) → TrustedIfOk (err e, w)
    stopped e w r h = cc

    created-TrustedIfOk :
        (username : Str) (m : Service C (Option (CreatedSsoUser env))) (w : World C)
        → IsNew provider claims db
        → AtomicValue
            (IsRegisteredFrom env claims.email username origin provider claims.subject db)
            db
            (m w)
        → TrustedIfOk (
            (do
              registered ← m
              created ← or_raise registered internal_server_error
              issue_login_session env meta created.user_id
                  (some created.identity_id)
                  created.username
                  UserRole.user)
              w)
    unfolding ◌>>=◌
    created-TrustedIfOk username m w is_new (inl (refused, same)) =
        rw refused (stopped internal_server_error (m w).1)
    created-TrustedIfOk username m w is_new (inr (created, done, registered)) =
        let accounts =
          (issue_login_session-SameAccounts env meta (m w).1.db created.user_id
              (some created.identity_id) created.username UserRole.user).kept
            (m w).1 (record { users = refl; identities = refl }) in
        rw done (λ r h. (
          verified,
          inr (
            is_new,
            record {
              username = username;
              created = created;
              committed = (m w).1.db;
              registered = registered;
              accounts = accounts;
            },
          ),
        ))

    register-TrustedIfOk :
        (o : Option ℕ) (down : Bool) (w : World C)
        → w.db ≡ db
        → get_identity_by_provider provider claims.subject db ≡ none
        → get_user_id_by_email claims.email db ≡ o
        → TrustedIfOk
            (register_sso env meta provider origin claims (if down then failed else reply_of o) w)
    unfolding register_sso
    register-TrustedIfOk o true w same no_identity row = raised internal_server_error w
    register-TrustedIfOk (some id) false w same no_identity row = raised sso_account_conflict w
    register-TrustedIfOk none false w same no_identity row =
        let kept = (Preserves-attempt env db _ (Preserves-generate db claims.email)).kept w same in
        holds-bind TrustedIfOk _ _ w (λ e h r x. cc)
          (λ named ran.
            holds-or_raise TrustedIfOk named _ _ _ (λ h r x. cc)
              (λ username is_named.
                created-TrustedIfOk username _ _
                  (record { no_identity = no_identity; no_user = row })
                  (subst
                    (λ d.
                      AtomicValue
                        (IsRegisteredFrom env claims.email username origin provider claims.subject
                          d)
                        d
                        (create_sso_user_and_identity env claims.email username origin provider
                          claims.subject
                          (attempt {E = ErrorDetail}
                            (generate_unique_username_from_email env claims.email) w).1))
                    kept
                    (create_sso-AtomicValue env claims.email username origin provider claims.subject
                      _))))

    identity-TrustedIfOk :
        (o : Option EmailAuth) (down : Bool) (w : World C)
        → w.db ≡ db
        → get_identity_by_provider provider claims.subject db ≡ o
        → TrustedIfOk
            (sso_identity env meta provider origin claims (if down then failed else reply_of o) w)
    unfolding sso_identity
    identity-TrustedIfOk o true w same row = raised internal_server_error w
    identity-TrustedIfOk none false w same row = holds-query env TrustedIfOk _ _ w (
        register-TrustedIfOk _ (env.db_fails w.calls) _ same row
          (ap (get_user_id_by_email claims.email) (sym same)))
    identity-TrustedIfOk (some identity) false w same row =
        let accounts =
          (issue_login_session-SameAccounts env meta db identity.user_id (some identity.identity_id)
              identity.username identity.role).kept
            w (subst (SameAccounts db) (sym same) (record { users = refl; identities = refl })) in
        holds-require TrustedIfOk _ _ _ w (λ h r x. cc)
          (λ usable r h. (
            verified,
            inl (record { identity = identity; of_subject = row; usable = usable }, accounts),
          ))

-- SSOLogin succeeds only for a verified email, and in one of two ways. The provider's subject has an
-- identity already, on an account that is neither deleted nor banned or disabled: then the identities are
-- as they were, and no user has been added or removed. Or the subject has no identity and no user has the
-- email: then one user with the email has been added, whose identifier, email and name no user had, and
-- one identity of that new user; so a provider is never attached to an account that was there.
pub sso_login-IsTrusted :
    {C : Type 0} (env : Env C) (meta : RequestMeta) (provider : ProviderName) (origin : UserOrigin)
    (claims : OidcClaims) (w : World C) {r : LoginResult}
    → (sso_login env meta provider origin claims w).0 ≡ ok r
    → IsTrusted env provider origin claims w.db (sso_login env meta provider origin claims w).1.db
unfolding sso_login
sso_login-IsTrusted {C = C} env meta provider origin claims w {r} h =
    let Q = λ (x : Result ErrorDetail LoginResult × World C).
      (r : LoginResult) → x.0 ≡ ok r → IsTrusted env provider origin claims w.db x.1.db in
    holds-require Q _ _ _ w (λ e r h. cc)
      (λ verified. holds-query env Q _ _ w (
        identity-TrustedIfOk env meta provider origin claims w.db verified _ (env.db_fails w.calls)
          _ refl refl))
      r h
