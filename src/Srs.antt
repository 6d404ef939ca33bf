-- ===== src/Srs.antt =====
-- The gRPC services of the directory srs.
pub mod Checks
pub mod Radio
pub mod Sync
pub mod Updates
pub mod Cleanup
pub mod Auth
