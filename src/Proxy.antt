-- ===== src/Proxy.antt =====
-- The root package's proxy: its configuration, route, guards, life, log and the servers beside it.
pub mod Credentials
pub mod Rules
pub mod Pac
pub mod Route
pub mod BasicAuth
pub mod Guards
pub mod ErrorPages
pub mod Config
pub mod Log
pub mod Life
pub mod Sources
pub mod Server
pub mod Script
