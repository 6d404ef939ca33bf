-- ===== src/Utils.antt =====
-- The helpers of the directory utils.
pub mod Slice
pub mod Auth
pub mod Keys
