-- ===== src/Http/Middleware.antt =====
-- internal/middleware/jwt.go, and requireRole of internal/handlers/admin.go
use golang_auth_api.Prelude.{ℕ, Bool, List, if◌then◌else◌, any, ltb, Str, codes, str_eq}
use golang_auth_api.Exec.{pure, raise, ◌>>=◌}
use golang_auth_api.Model.Errors.{unauthorized, forbidden}
use golang_auth_api.Model.Rows.{UserRole}
use golang_auth_api.Platform.{Env, Service}
use golang_auth_api.Auth.Jwt.{
  UserContext, role_joiner, verify_and_parse_jwt, verify_and_parse_temporary_jwt,
  verify_and_parse_expired_jwt,
}
use golang_auth_api.Services.Common.{attempt, or_raise, role_name}
use golang_auth_api.Http.Routes.{open_routes, temporary_jwt_routes, v1_refresh_token}

-- What the middleware has put into the context of the request: nothing; the session and the user of
-- an expired token; the email and the identifier of a temporary token; the user.
pub data RequestContext : Type 0 where
  open_request : RequestContext
  expired_request : Str → Str → RequestContext
  joiner_request : Str → Str → RequestContext
  user_request : UserContext → RequestContext

-- isAlternateRoute
unfoldable pub is_alternate_route : Str → List Str → Bool
is_alternate_route path routes = any (λ route. str_eq path route) routes

-- roleRank, where a missing key reads as 0
unfoldable pub role_rank : Str → ℕ
role_rank role =
    if str_eq role (codes "user")
    then 0
    else if str_eq role (codes "moderator")
    then 1
    else if str_eq role (codes "admin")
    then 2
    else 0

-- requireRole: the user with whom the handler runs.
unfoldable pub require_role : {C : Type 0} → UserRole → RequestContext → Service C UserContext
require_role min (user_request user) =
    if ltb (role_rank user.role) (role_rank (role_name min)) then raise forbidden else pure user
require_role min open_request = raise unauthorized
require_role min (expired_request session_id user_id) = raise unauthorized
require_role min (joiner_request email id) = raise unauthorized

module _ {C : Type 0} (env : Env C) where
  unfoldable pub access_context : Str → Service C RequestContext
  access_context header = do
    verified ← attempt (verify_and_parse_jwt env header)
    user ← or_raise verified unauthorized
    pure (user_request user)

  unfoldable pub temporary_context : Str → Service C RequestContext
  temporary_context header = do
    verified ← attempt (verify_and_parse_temporary_jwt env header role_joiner)
    ids ← or_raise verified unauthorized
    pure (joiner_request ids.0 ids.1)

  unfoldable pub expired_context : Str → Service C RequestContext
  expired_context header = do
    verified ← attempt (verify_and_parse_expired_jwt env header)
    ids ← or_raise verified unauthorized
    pure (expired_request ids.0 ids.1)

  -- JWTMiddleware: the context with which the next handler runs.
  unfoldable pub jwt_middleware : Str → Str → Service C RequestContext
  unfolding access_context temporary_context expired_context
  jwt_middleware path header =
      if is_alternate_route path open_routes
      then pure open_request
      else if str_eq path v1_refresh_token
      then expired_context header
      else if is_alternate_route path temporary_jwt_routes
      then temporary_context header
      else access_context header

  -- A request to a route that is registered through requireRole.
  unfoldable pub role_gated : UserRole → Str → Str → Service C UserContext
  unfolding jwt_middleware require_role
  role_gated min path header = do context ← jwt_middleware path header; require_role min context
