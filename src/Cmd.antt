-- ===== src/Cmd.antt =====
-- cmd/relaybox: the command line.
pub mod Serve
mod Tests
