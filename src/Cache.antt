-- ===== src/Cache.antt =====
-- internal/cache, over the Redis commands that it sends.
pub mod Redis
pub mod Token
pub mod Pages
pub mod Task
