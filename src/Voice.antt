-- ===== src/Voice.antt =====
-- The voice server of the directory voice.
pub mod Protocol
pub mod Server
pub mod Playback
