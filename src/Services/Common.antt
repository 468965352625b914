-- ===== src/Services/Common.antt =====
-- What several services share: request metadata, best-effort calls, the login audit row.
use golang_auth_api.Prelude.{◌≡◌, refl, ℕ, Option, none, some, [], Str, codes}
pub use golang_auth_api.Exec.{require, or_raise}
use golang_auth_api.Exec.{Result, ok, err, Exec, pure, raise}
use golang_auth_api.Exec.Outcome.{NeverFails}
use golang_auth_api.Platform.CallLaws.{NeverFails-statement}
use golang_auth_api.Model.Rows.{UserRole, LoginOutcome}
use golang_auth_api.Model.Errors.{internal_server_error}
use golang_auth_api.Platform.{Env, World, Service, Reply, found, no_rows, failed}
use golang_auth_api.Platform.Calls.{statement}
use golang_auth_api.Database.Sessions.{text_or_null}
use golang_auth_api.Database.Logs.{insert_login}
use golang_auth_api.Auth.Jwt.{Fallible}

-- ClientIPFromCtx and UserAgentFromCtx
pub record RequestMeta : Type 0 where
  pub ip : Str
  pub user_agent : Str

-- string(role)
unfoldable pub role_name : UserRole → Str
role_name UserRole.user = codes "user"
role_name UserRole.moderator = codes "moderator"
role_name UserRole.admin = codes "admin"

-- pgtype.Text.String
abbrev pub text_of : Option Str → Str
text_of none = []
text_of (some s) = s

-- A row that is missing is an internal error, as any other error is.
abbrev pub must_find : {C A : Type 0} → Reply A → Service C A
must_find (found a) = pure a
must_find no_rows = raise internal_server_error
must_find failed = raise internal_server_error

abbrev pub to_option : {E A : Type 0} → Result E A → Option A
to_option (ok a) = some a
to_option (err e) = none

-- The error is looked at and not returned.
unfoldable pub attempt : {C A E : Type 0} → Fallible C A → Exec (World C) E (Option A)
attempt m w = let (r, w') = m w in (ok (to_option r), w')

module _ {C : Type 0} (env : Env C) (meta : RequestMeta) where
  -- recordLoginAttempt: a failure to write the row is ignored.
  unfoldable pub record_login_attempt : Option ℕ → Option ℕ → LoginOutcome → Service C (Reply Unit)
  record_login_attempt user_id identity_id result = statement env (
      insert_login (record {
        user_id = user_id;
        identity_id = identity_id;
        result = result;
        ip = text_or_null meta.ip;
        user_agent = text_or_null meta.user_agent;
      }))

  pub NeverFails-record_login_attempt :
      (user_id identity_id : Option ℕ) (result : LoginOutcome)
      → NeverFails (record_login_attempt user_id identity_id result)
  unfolding record_login_attempt
  NeverFails-record_login_attempt user_id identity_id result = NeverFails-statement env _

pub NeverFails-attempt : {C A E : Type 0} (m : Fallible C A) → NeverFails (attempt {E = E} m)
unfolding attempt
NeverFails-attempt m = record { at = λ w. (to_option (m w).0, refl) }

some_ok : {E A : Type 0} (r : Result E A) {a : A} → to_option r ≡ some a → r ≡ ok a
some_ok (ok b) h = cc
some_ok (err e) h = cc

-- What an attempt found is what the action returned.
pub attempt-eq-some :
    {C A E : Type 0} (m : Fallible C A) (w : World C) {o : Option A} {a : A}
    → (attempt {E = E} m w).0 ≡ ok o
    → o ≡ some a
    → (m w).0 ≡ ok a
unfolding attempt
attempt-eq-some m w h e = some_ok (m w).0 cc
