-- ===== src/Http.antt =====
-- The HTTP layer: routes, the JWT middleware, the roles that a route requires.
pub mod Routes
pub mod Middleware
pub mod Access
pub mod RateLimit
