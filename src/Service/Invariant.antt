-- ===== src/Service/Invariant.antt =====
-- What holds of the tables through every sequence of requests.
pub mod Rows
pub mod Staffing
pub mod Closing
pub mod Audit
pub mod Steps
pub mod Reach
