-- ===== src/Account.antt =====
-- client_core/src/account: the account session of the client.
pub mod Types
pub mod State
pub mod Machine
pub mod TokenManager
pub mod DeviceProof
pub mod ReconnectPolicy
pub mod Session
mod Tests
