-- ===== src/Http/Middleware.antt =====
-- internal/server/http/middleware
pub mod Auth
pub mod RateLimiter
