-- ===== src/Repository.antt =====
-- internal/repository: each method is one SQL statement or two, on the tables of Database.Tables.
pub mod User
pub mod Team
pub mod Task
pub mod Comment
