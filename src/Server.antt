-- ===== src/Server.antt =====
-- im_server/src: the server's limiters, handlers, tokens and database.
pub mod Login
pub mod Ai
pub mod Presence
pub mod Router
pub mod DeviceProof
pub mod DeviceKeys
pub mod WriteQueue
pub mod Auth
pub mod AuthTable
pub mod Tokens
mod Tests
