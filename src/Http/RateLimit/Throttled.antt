-- ===== src/Http/RateLimit/Throttled.antt =====
-- Which requests the rate limits let through, and what they answer to the others.
use mathlib.Core.Path.{subst}
use mathlib.Core.Option.{some-injective}
use golang_auth_api.Prelude.{
  ◌+◌, ◌≡◌, ◌∙◌, ap, refl, Bool, true, false, not, Option, none, some, Str, codes, has_prefix,
  Bool-cases, inl, inr,
}
use golang_auth_api.Exec.{ok, require, or_raise, ◌>>=◌, bind-eq-ok, pure-eq-ok}
use golang_auth_api.Model.Errors.{ErrorDetail, internal_server_error, too_many_attempts}
use golang_auth_api.Platform.{Env, World, Service}
use golang_auth_api.Platform.CallLaws.{draw-bind}
use golang_auth_api.Http.Middleware.{RequestContext, jwt_middleware}
use golang_auth_api.Http.RateLimit.{
  Limiter, has_body, json_middleware, limited_user, ip_key, user_key, check_rate_limit,
  rate_limit_middleware, limit_user, user_rate_limit_middleware, build_handler_stack,
}

-- The error of a call to the limiter that lets nothing through.
abbrev pub refusal : Option Bool → Option ErrorDetail
refusal none = some internal_server_error
refusal (some true) = some too_many_attempts
refusal (some false) = none

-- A request with a body says that the body is JSON.
abbrev pub DeclaresJson : Str → Str → Type 0
DeclaresJson method content_type =
    has_body method ≡ true → has_prefix content_type (codes "application/json") ≡ true

-- The body is JSON; the address is within its limit; JWTMiddleware, which runs next, has built the context; and the user
-- whom it names is within his limit when it has.
pub record IsThrottled {C : Type 0} (env : Env C) (limiter : Limiter)
    (method content_type ip path header : Str) (w : World C) (context : RequestContext)
    : Type 0 where
  pub media : DeclaresJson method content_type
  pub address : limiter.get w.calls (ip_key ip) ≡ some false
  pub passed : (jwt_middleware env path header (record w { calls = w.calls + 1 })).0 ≡ ok context
  pub user :
      (id : Str)
      → limited_user context ≡ some id
      → limiter.get
          (jwt_middleware env path header (record w { calls = w.calls + 1 })).1.calls
          (user_key id)
        ≡ some false

module _ {C : Type 0} where
  abbrev judged : Option Bool → Service C Unit
  judged answer = do
    reached ← or_raise answer internal_server_error
    require (not reached) too_many_attempts

  judged-allowed :
      (answer : Option Bool) (w : World C) {u : Unit {0}}
      → (judged answer w).0 ≡ ok u
      → (answer ≡ some false) × ((judged answer w).1 ≡ w)
  unfolding ◌>>=◌
  judged-allowed none w h = cc
  judged-allowed (some true) w h = cc
  judged-allowed (some false) w h = (refl, refl)

  module _ (env : Env C) (limiter : Limiter) where
    check-allowed :
        (key : Str) (w : World C) {u : Unit {0}}
        → (check_rate_limit env limiter key w).0 ≡ ok u
        → (limiter.get w.calls key ≡ some false)
          × ((check_rate_limit env limiter key w).1 ≡ record w { calls = w.calls + 1 })
    unfolding check_rate_limit
    check-allowed key w h =
        let (within, kept) = judged-allowed _ _ (rw (draw-bind env _ _ w) at h) in
        (within, ap (λ r. r.1) (draw-bind env _ _ w) ∙ kept)

    user-allowed :
        (o : Option Str) (id : Str) (w : World C) {u : Unit {0}}
        → o ≡ some id
        → (limit_user env limiter o w).0 ≡ ok u
        → limiter.get w.calls (user_key id) ≡ some false
    user-allowed none id w is_user h = cc
    user-allowed (some i) id w is_user h =
        subst (λ j. limiter.get w.calls (user_key j) ≡ some false) (some-injective i id is_user)
          (check-allowed (user_key i) w h).0

    json-DeclaresJson :
        (method content_type : Str) (w : World C) {u : Unit {0}}
        → (json_middleware method content_type w).0 ≡ ok u
        → DeclaresJson method content_type × ((json_middleware method content_type w).1 ≡ w)
    unfolding json_middleware ◌>>=◌
    json-DeclaresJson method content_type w h = elim (Bool-cases (has_body method)) [
      | inl body ↦ elim (Bool-cases (has_prefix content_type (codes "application/json"))) [
        | inl json ↦ rw (body, json) ((λ e. refl), refl)
        | inr other ↦ (let bad = rw (body, other) at h in cc)
      ]
      | inr none_given ↦ rw none_given ((λ e. cc), refl)
    ]

    -- The router runs a request only where one with a body declares it as JSON, the limiter answered that
    -- the address is within its limit, and JWTMiddleware then built the context; where that is the context
    -- of a user with an identifier, the limiter answered last that the user is within his limit.
    pub build_handler_stack-IsThrottled :
        (method content_type ip path header : Str) (w : World C) {context : RequestContext}
        → (build_handler_stack env limiter method content_type ip path header w).0 ≡ ok context
        → IsThrottled env limiter method content_type ip path header w context
    unfolding build_handler_stack rate_limit_middleware user_rate_limit_middleware
    build_handler_stack-IsThrottled method content_type ip path header w h =
        let (j, sent, h0) = bind-eq-ok _ _ w h in
        let (media, same) = json-DeclaresJson method content_type w sent in
        let (u, first, h1) = bind-eq-ok _ _ w (rw same at h0) in
        let (within, left) = check-allowed (ip_key ip) w first in
        let (context, passed, h2) = bind-eq-ok _ _ _ (rw left at h1) in
        let (v, second, h3) = bind-eq-ok _ _ _ h2 in
        subst (IsThrottled env limiter method content_type ip path header w) (pure-eq-ok _ _ h3)
          (record {
            media = media;
            address = within;
            passed = passed;
            user = λ id is_user. user-allowed (limited_user context) id _ is_user second;
          })
