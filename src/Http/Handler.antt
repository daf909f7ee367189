-- ===== src/Http/Handler.antt =====
-- internal/server/http/handler: every handler checks the caller, the path and the body, calls one
-- method of a service, and answers. What the framework has parsed is an argument.
pub mod Flow
pub mod Session
pub mod User
pub mod Team
pub mod Task
pub mod Calls
pub mod Passing
pub mod Sound
