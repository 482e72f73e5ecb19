-- ===== src/Tests.antt =====
-- Runs at concrete inputs.
mod Instances
mod Clients
mod Config
mod Backend
mod Xkb
mod Server
mod Http
mod Logger
mod Motion
mod Wire
mod Input
mod Handlers
mod Sessions
