-- ===== src/Tests/Limits.antt =====
-- Requests behind the rate limits, at concrete inputs.
use golang_auth_api.Prelude.{
  [], ◌≡◌, refl, some, any, codes, str_eq, is_empty, has_prefix, drop_prefix,
}
use golang_auth_api.Exec.{ok, ◌>>=◌}
use golang_auth_api.Platform.Calls.{draw, now, cache_get}
use golang_auth_api.Cache.{entry_get}
use golang_auth_api.Auth.Session.{is_valid_session}
use golang_auth_api.Auth.Jwt.{parse_jwt, verify_and_parse_jwt}
use golang_auth_api.Services.Common.{attempt}
use golang_auth_api.Http.Middleware.{user_request, is_alternate_route, jwt_middleware}
use golang_auth_api.Http.RateLimit.{Limiter, build_handler_stack}
use golang_auth_api.Http.RateLimit.Throttled.{IsThrottled, build_handler_stack-IsThrottled}
use golang_auth_api.Tests.Data.{test_env, plain_world}
use golang_auth_api.Tests.Logins.{user_context}
use golang_auth_api.Tests.Requests.{users_path}

-- One address has reached its limit.
abbrev test_limiter : Limiter
test_limiter = record { get = λ i key. some (str_eq key (codes "ip:9")) }

stack_test :
    (build_handler_stack test_env test_limiter
      (codes "GET")
      []
      (codes "8")
      users_path
      (codes "Bearer tok")
      plain_world).0
    ≡ ok (user_request user_context)
unfolding build_handler_stack is_alternate_route any attempt verify_and_parse_jwt parse_jwt is_empty
    has_prefix drop_prefix now str_eq is_valid_session cache_get entry_get draw ◌>>=◌ jwt_middleware
stack_test = refl

build_handler_stack-IsThrottled_example :
    IsThrottled test_env test_limiter
      (codes "GET")
      []
      (codes "8")
      users_path
      (codes "Bearer tok")
      plain_world
      (user_request user_context)
build_handler_stack-IsThrottled_example =
    build_handler_stack-IsThrottled test_env test_limiter (codes "GET") [] (codes "8") users_path
      (codes "Bearer tok") plain_world stack_test
