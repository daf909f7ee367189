-- ===== src/Http.antt =====
-- internal/server/http: the replies to errors, the middleware, the handlers.
pub mod Response
pub mod Middleware
pub mod Handler
pub mod Protected
