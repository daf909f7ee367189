-- ===== src/Domain.antt =====
-- internal/domain: the business types and their pure methods.
pub mod Errors
pub mod Team
pub mod Task
pub mod Time
pub mod Text
pub mod Listing
pub mod Stats
pub mod Results
