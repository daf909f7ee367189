-- ===== src/Service.antt =====
-- internal/service: authorisation, invariants and transaction boundaries.
pub mod Rbac
pub mod Team
pub mod Task
pub mod Account
pub mod User
pub mod Auth
pub mod Requests
pub mod Invariant
