-- ===== src/Shell.antt =====
-- The guard of the shell tool.
pub mod Commands
pub mod Paths
pub mod Guard
mod Tests
