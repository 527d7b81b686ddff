-- ===== src/Security.antt =====
-- src/bob/security: what stands between a request and the services.
pub mod RateLimiter
pub mod Rbac
pub mod Validation
pub mod Middleware
pub mod Auth
