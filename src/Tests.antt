-- ===== src/Tests.antt =====
-- Runs of the services on small tables, and the theorems at concrete inputs.
pub mod Sample
pub mod Sessions
pub mod Pages
pub mod Cursors
pub mod Limits
pub mod Runs
pub mod Listed
pub mod Gate
pub mod Settings
pub mod Witnesses
