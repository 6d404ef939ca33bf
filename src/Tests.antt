-- ===== src/Tests.antt =====
-- Concrete inputs, and each result at one of them.
mod Nodes
mod Roles
mod Servers
mod Packages
mod Yaml
mod Protocol
mod VoiceServer
mod RadioServer
mod AuthServer
mod App
mod Settings
mod Delivery
mod Playback
mod Reconnection
