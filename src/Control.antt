-- ===== src/Control.antt =====
-- The directory control.
pub mod Interceptor
pub mod Health
pub mod Server
