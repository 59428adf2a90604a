-- ===== src/Dist.antt =====
-- internal/distcheck: the checks of a distribution before it is published.
pub mod Version
pub mod Archives
pub mod Checksums
mod Tests
pub mod Zip
pub mod Contents
pub mod Verify
