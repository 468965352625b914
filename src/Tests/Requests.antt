-- ===== src/Tests/Requests.antt =====
-- Requests at concrete inputs: a role-gated route, and a token after the logout of its session.
use golang_auth_api.Prelude.{
  List, some, ◌≡◌, ◌≢◌, refl, true, any, update_where, Str, codes, str_eq, is_empty, has_prefix,
  drop_prefix,
}
use golang_auth_api.Exec.{ok, ◌>>=◌}
use golang_auth_api.Model.Rows.{UserRole}
use golang_auth_api.Cache.{Entry, entry_get, entry_del}
use golang_auth_api.Platform.Calls.{now, cache_get, cache_del_both, statement}
use golang_auth_api.Auth.Session.{is_valid_session, delete_session}
use golang_auth_api.Auth.Jwt.{UserContext, parse_jwt, verify_and_parse_jwt}
use golang_auth_api.Auth.Jwt.Verified.{IsVerified}
use golang_auth_api.Platform.{Env, World, JwtClaims}
use golang_auth_api.Database.Sessions.{revoke_session}
use golang_auth_api.Services.Refresh.{logout}
use golang_auth_api.Services.Refresh.LockedOut.{logout-locks_out}
use golang_auth_api.Services.Common.{attempt, role_name}
use golang_auth_api.Http.Middleware.{is_alternate_route, role_rank, role_gated}
use golang_auth_api.Http.Access.{HasRank, admin_prefix, role_gated-IsVerified}
use golang_auth_api.Tests.Data.{access_claims_of_user, test_env, plain_world}
use golang_auth_api.Tests.Logins.{user_context, session_given, session_parsed}

abbrev pub users_path : Str
users_path = codes "/auth/v1/admin/users"

prefix_test : has_prefix users_path admin_prefix ≡ true
unfolding has_prefix
prefix_test = refl

-- The same token, for a moderator.
abbrev moderator_claims : JwtClaims
moderator_claims = record access_claims_of_user { role = codes "moderator" }

abbrev moderator_env : Env (List Entry)
moderator_env = record test_env { parse_jwt_claims = λ t token. some moderator_claims }

abbrev moderator_context : UserContext
moderator_context = record user_context { role = codes "moderator" }

staff_test : UserRole.moderator ≢ UserRole.user
staff_test e = cc

gate_test :
    (role_gated moderator_env UserRole.moderator users_path (codes "Bearer tok") plain_world).0
    ≡ ok moderator_context
unfolding role_gated is_alternate_route any attempt verify_and_parse_jwt parse_jwt is_empty
    has_prefix drop_prefix now str_eq is_valid_session cache_get entry_get role_rank role_name ◌>>=◌
gate_test = refl

role_gated_example :
    IsVerified moderator_env (codes "Bearer tok") plain_world moderator_context
    × HasRank UserRole.moderator (codes "moderator")
role_gated_example =
    role_gated-IsVerified moderator_env UserRole.moderator users_path (codes "Bearer tok")
      plain_world staff_test prefix_test gate_test

abbrev other_context : UserContext
other_context = record user_context { session_id = codes "s2" }

-- The world after the logout of the first session.
abbrev logged_out : World (List Entry)
logged_out = (logout test_env (codes "s1") plain_world).1

other_session_test :
    (verify_and_parse_jwt test_env (codes "Bearer tok2") logged_out).0 ≡ ok other_context
unfolding verify_and_parse_jwt parse_jwt is_empty has_prefix drop_prefix now str_eq is_valid_session
    cache_get entry_get entry_del logout delete_session cache_del_both statement revoke_session
    update_where ◌>>=◌
other_session_test = refl

logout-locks_out_example : other_context.session_id ≢ codes "s1"
logout-locks_out_example =
    logout-locks_out test_env (codes "s1") (codes "Bearer tok2") 11 plain_world logged_out
      session_given session_parsed refl refl refl other_session_test
