-- ===== src/Services/Refresh/LockedOut.antt =====
-- A session whose keys are gone from Redis is of no more use to its access token.
use mathlib.Core.Path.{subst}
use golang_auth_api.Prelude.{ℕ, ◌+◌, false, is_empty, ◌≡◌, ◌≢◌, ap, sym, ◌∙◌, some, Str}
use golang_auth_api.Exec.{ok}
use golang_auth_api.Platform.{Env, World}
use golang_auth_api.Auth.Session.{session_key}
use golang_auth_api.Auth.Jwt.{UserContext, verify_and_parse_jwt}
use golang_auth_api.Auth.Jwt.Verified.{IsVerified, verify_and_parse_jwt-IsVerified}
use golang_auth_api.Services.Refresh.{logout}
use golang_auth_api.Services.Refresh.Revocation.{IsForgotten, logout-IsEnded}

verified-forgotten :
    {C : Type 0} (env : Env C) (session_id header : Str) (w : World C) (u : UserContext)
    → IsForgotten env session_id w.cache
    → IsVerified env header w u
    → u.session_id ≢ session_id
verified-forgotten env session_id header w u forgotten verified same =
    let same_id = sym (ap (λ v. v.session_id) verified.identity) ∙ same in
    let stored = rw (ap session_key same_id) at verified.in_cache in
    let gone = forgotten.no_session verified.t in cc

-- After the logout of a session whose identifier parses, in which Redis and the database answer,
-- VerifyAndParseJWT accepts no access token of the session, as long as Redis holds what the logout has
-- left there.
pub logout-locks_out :
    {C : Type 0} (env : Env C) (session_id header : Str) (pg : ℕ) (w later : World C)
    {u : UserContext}
    → is_empty session_id ≡ false
    → env.parse_uuid session_id ≡ some pg
    → env.cache_fails w.calls ≡ false
    → env.db_fails (w.calls + 1) ≡ false
    → later.cache ≡ (logout env session_id w).1.cache
    → (verify_and_parse_jwt env header later).0 ≡ ok u
    → u.session_id ≢ session_id
logout-locks_out env session_id header pg w later given parsed up db_up same accepted =
    let ended = (logout-IsEnded env session_id pg w given parsed up db_up).1 in
    verified-forgotten env session_id header later _
      (subst (IsForgotten env session_id) (sym same) ended.forgotten)
      (verify_and_parse_jwt-IsVerified env header later accepted)
