-- ===== src/State.antt =====
-- The shared state of the directory state.
pub mod Server
pub mod Settings
pub mod Bans
