-- ===== src/Store.antt =====
-- internal/store: the append-only event log, its tables in memory, and the operations on them.
pub mod Model
pub mod Errors
pub mod Options
pub mod Env
pub mod Tables
pub mod Validate
pub mod Apply
pub mod State
pub mod Compact
pub mod Append
pub mod Recover
pub mod Accept
pub mod Jobs
pub mod Subscribe
pub mod Queries
pub mod Redact
pub mod Tests
