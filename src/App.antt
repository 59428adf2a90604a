-- ===== src/App.antt =====
-- internal/app: the HTTP service around the store, and the workers that forward captures.
pub mod Headers
pub mod Retry
pub mod Forward
pub mod Auth
pub mod Target
pub mod Ingest
pub mod Read
mod Tests
pub mod Limits
