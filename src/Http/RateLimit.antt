-- ===== src/Http/RateLimit.antt =====
-- internal/middleware/rate_limit.go and json.go, and the chain of internal/handlers/build_handler_stack.go,
-- less its links that pass every request on: the response writer, the request identifier, the log, the
-- response headers, and the timeout around the router. The limiter is that of a library.
pub mod Throttled
use golang_auth_api.Prelude.{
  ◌+◌, ◌≡◌, ◌∙◌, ap, refl, sym, ℕ, Bool, true, false, not, Bool-cases, inl, inr, Option, none, some,
  ◌++◌, if◌then◌else◌, Str, codes, is_empty, ◌||◌, str_eq, has_prefix,
}
use golang_auth_api.Exec.{
  ok, err, pure, require, or_raise, ◌>>=◌, ◌>>◌, bind-eq-ok, or_raise-eq-ok, require-eq-ok,
  pure-eq-ok,
}
use golang_auth_api.Model.Errors.{internal_server_error, invalid_payload_media, too_many_attempts}
use golang_auth_api.Platform.{Env, World, Service}
use golang_auth_api.Platform.Calls.{draw}
use golang_auth_api.Platform.CallLaws.{draw-bind}
use golang_auth_api.Auth.Jwt.{UserContext}
use golang_auth_api.Http.Middleware.{
  RequestContext, open_request, expired_request, joiner_request, user_request, jwt_middleware,
}

-- github.com/ulule/limiter: whether the i-th call finds the limit of a key reached, or fails.
pub record Limiter : Type 0 where
  pub get : ℕ → Str → Option Bool

-- `UserContextKey`, with an identifier
unfoldable pub limited_user : RequestContext → Option Str
limited_user (user_request user) = if is_empty user.id then none else some user.id
limited_user open_request = none
limited_user (expired_request session_id user_id) = none
limited_user (joiner_request email id) = none

abbrev pub ip_key : Str → Str
ip_key ip = codes "ip:" ++ ip

abbrev pub user_key : Str → Str
user_key id = codes "user:" ++ id

-- POST, PUT and PATCH
abbrev pub has_body : Str → Bool
has_body method =
    str_eq method (codes "POST") || (str_eq method (codes "PUT") || str_eq method (codes "PATCH"))

-- JSONMiddleware
unfoldable pub json_middleware : {C : Type 0} → Str → Str → Service C Unit
json_middleware method content_type =
    if has_body method
    then require (has_prefix content_type (codes "application/json")) invalid_payload_media
    else pure tt

module _ {C : Type 0} (env : Env C) (limiter : Limiter) where
  -- checkRateLimit
  unfoldable pub check_rate_limit : Str → Service C Unit
  check_rate_limit key = do
    answer ← draw env (λ i. limiter.get i key)
    reached ← or_raise answer internal_server_error
    require (not reached) too_many_attempts

  -- RateLimitMiddleware
  unfoldable pub rate_limit_middleware : Str → Service C Unit
  unfolding check_rate_limit
  rate_limit_middleware ip = check_rate_limit (ip_key ip)

  abbrev pub limit_user : Option Str → Service C Unit
  limit_user none = pure tt
  limit_user (some id) = check_rate_limit (user_key id)

  -- UserRateLimitMiddleware
  unfoldable pub user_rate_limit_middleware : RequestContext → Service C Unit
  unfolding limited_user
  user_rate_limit_middleware context = limit_user (limited_user context)

  -- BuildHandlerStack: the context with which the router runs.
  unfoldable pub build_handler_stack : Str → Str → Str → Str → Str → Service C RequestContext
  unfolding json_middleware rate_limit_middleware user_rate_limit_middleware
  build_handler_stack method content_type ip path header = do
    json_middleware method content_type
    rate_limit_middleware ip
    context ← jwt_middleware env path header
    user_rate_limit_middleware context
    pure context
