-- ===== src/Http/Access.antt =====
-- Who reaches a handler behind requireRole.
use mathlib.Core.Path.{subst}
use golang_auth_api.Prelude.{
  sym, ◌≡◌, ◌≤◌, ◌≢◌, ◌⊎◌, refl, true, false, Bool-cases, inl, inr, List, [], ◌∷◌, any, ltb, All,
  Str, codes, str_eq, str_eq_iff, has_prefix, arith,
}
use golang_auth_api.Exec.{ok, bind-eq-ok, or_raise-eq-ok, pure-eq-ok, raise-ne-ok}
use golang_auth_api.Model.Errors.{unauthorized, forbidden}
use golang_auth_api.Model.Rows.{UserRole}
use golang_auth_api.Platform.{Env, World}
use golang_auth_api.Auth.Jwt.{UserContext}
use golang_auth_api.Auth.Jwt.Verified.{IsVerified, verify_and_parse_jwt-IsVerified}
use golang_auth_api.Services.Common.{role_name, attempt-eq-some}
use golang_auth_api.Http.Routes.{open_routes, temporary_jwt_routes, v1_refresh_token}
use golang_auth_api.Http.Middleware.{
  RequestContext, user_request, is_alternate_route, role_rank, require_role, access_context,
  jwt_middleware, role_gated,
}

-- A path with the prefix is none of the routes without it.
not_among :
    (prefix path : Str) (routes : List Str)
    → has_prefix path prefix ≡ true
    → All (λ route. has_prefix route prefix ≡ false) routes
    → is_alternate_route path routes ≡ false
unfolding is_alternate_route any
not_among prefix path [] given all = refl
not_among prefix path (route ∷ routes) given (other, all) = elim (Bool-cases (str_eq path route)) [
  | inl same ↦ (let e = (str_eq_iff path route).0 same in let h = rw e at given in cc)
  | inr differs ↦ rw differs (not_among prefix path routes given all)
]

abbrev pub admin_prefix : Str
admin_prefix = codes "/auth/v1/admin/"

admin_not_open : All (λ route. has_prefix route admin_prefix ≡ false) open_routes
unfolding has_prefix
admin_not_open = (
  refl,
  (refl, (refl, (refl, (refl, (refl, (refl, (refl, (refl, (refl, (refl, (refl, tt))))))))))),
)

admin_not_temporary : All (λ route. has_prefix route admin_prefix ≡ false) temporary_jwt_routes
unfolding has_prefix
admin_not_temporary = (refl, tt)

admin_not_refresh : All (λ route. has_prefix route admin_prefix ≡ false) (v1_refresh_token ∷ [])
unfolding has_prefix
admin_not_refresh = (refl, tt)

one_route :
    (path route : Str) → is_alternate_route path (route ∷ []) ≡ false → str_eq path route ≡ false
unfolding is_alternate_route any
one_route path route h = ground arith

-- The roles of the catalogue that are at least the required one.
abbrev pub HasRank : UserRole → Str → Type 0
HasRank UserRole.user role =
    (role ≡ codes "user") ⊎ ((role ≡ codes "moderator") ⊎ (role ≡ codes "admin"))
HasRank UserRole.moderator role = (role ≡ codes "moderator") ⊎ (role ≡ codes "admin")
HasRank UserRole.admin role = role ≡ codes "admin"

moderator_rank : role_rank (role_name UserRole.moderator) ≡ 1
unfolding role_rank role_name str_eq
moderator_rank = refl

admin_rank : role_rank (role_name UserRole.admin) ≡ 2
unfolding role_rank role_name str_eq
admin_rank = refl

above_user : (role : Str) → 1 ≤ role_rank role → (role ≡ codes "moderator") ⊎ (role ≡ codes "admin")
unfolding role_rank
above_user role h = elim (Bool-cases (str_eq role (codes "moderator"))) [
  | inl same ↦ inl ((str_eq_iff role (codes "moderator")).0 same)
  | inr other ↦ elim (Bool-cases (str_eq role (codes "admin"))) [
    | inl same ↦ inr ((str_eq_iff role (codes "admin")).0 same)
    | inr unknown ↦ ground arith
  ]
]

above_moderator : (role : Str) → 2 ≤ role_rank role → role ≡ codes "admin"
unfolding role_rank
above_moderator role h = elim (Bool-cases (str_eq role (codes "admin"))) [
  | inl same ↦ (str_eq_iff role (codes "admin")).0 same
  | inr unknown ↦ ground arith
]

-- A rank that is not below the one of the required role; a role outside the catalogue has that of a user.
role_rank-HasRank :
    (min : UserRole) (role : Str)
    → min ≢ UserRole.user
    → role_rank (role_name min) ≤ role_rank role
    → HasRank min role
role_rank-HasRank UserRole.user role staff h = absurd (staff refl)
role_rank-HasRank UserRole.moderator role staff h =
    above_user role (subst (λ n. n ≤ role_rank role) moderator_rank h)
role_rank-HasRank UserRole.admin role staff h =
    above_moderator role (subst (λ n. n ≤ role_rank role) admin_rank h)

module _ {C : Type 0} (env : Env C) where
  access_context-IsVerified :
      (header : Str) (w : World C) {context : RequestContext}
      → (access_context env header w).0 ≡ ok context
      → (user : UserContext) × (context ≡ user_request user) × IsVerified env header w user
  unfolding access_context
  access_context-IsVerified header w h =
      let (verified, ran, rest) = bind-eq-ok _ _ w h in
      let (user, is_some_user, done) = or_raise-eq-ok _ unauthorized _ _ rest in
      (
        user,
        sym (pure-eq-ok _ _ done),
        verify_and_parse_jwt-IsVerified env header w (attempt-eq-some _ w ran is_some_user),
      )

  require_role-ranked :
      (min : UserRole) (user : UserContext) (w : World C) {u : UserContext}
      → (require_role min (user_request user) w).0 ≡ ok u
      → (user ≡ u) × (role_rank (role_name min) ≤ role_rank user.role)
  unfolding require_role
  require_role-ranked min user w h =
      elim (Bool-cases (ltb (role_rank user.role) (role_rank (role_name min)))) [
        | inl below ↦ absurd (raise-ne-ok forbidden w (rw below at h))
        | inr enough ↦ (pure-eq-ok _ _ (rw enough at h), ground arith)
      ]

admin_context :
    {C : Type 0} (env : Env C) (path header : Str) (w : World C)
    → has_prefix path admin_prefix ≡ true
    → jwt_middleware env path header w ≡ access_context env header w
unfolding jwt_middleware
admin_context env path header w below =
    rw
      (
        not_among admin_prefix path open_routes below admin_not_open,
        one_route path v1_refresh_token
            (not_among admin_prefix path (v1_refresh_token ∷ []) below admin_not_refresh),
        not_among admin_prefix path temporary_jwt_routes below admin_not_temporary,
      )
      refl

-- A request to a path below /auth/v1/admin/ that requires more than the role "user" reaches its handler
-- behind requireRole only with an access token that JWTMiddleware has verified, and whose role is
-- "admin", or "moderator" where that is what is required.
pub role_gated-IsVerified :
    {C : Type 0} (env : Env C) (min : UserRole) (path header : Str) (w : World C) {u : UserContext}
    → min ≢ UserRole.user
    → has_prefix path admin_prefix ≡ true
    → (role_gated env min path header w).0 ≡ ok u
    → IsVerified env header w u × HasRank min u.role
unfolding role_gated
role_gated-IsVerified env min path header w {u} staff below h =
    let (context, passed, rest) = bind-eq-ok _ _ w h in
    let (user, is_user, verified) =
      access_context-IsVerified env header w
        (rw (admin_context env path header w below) at passed) in
    let (same, ranked) = require_role-ranked env min user _ (rw is_user at rest) in
    (
      subst (λ v. IsVerified env header w v) same verified,
      role_rank-HasRank min u.role staff
          (subst (λ v. role_rank (role_name min) ≤ role_rank v.role) same ranked),
    )
