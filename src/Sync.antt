-- ===== src/Sync.antt =====
-- client_core/include/client_core/sync and client_core/src/sync: which messages of a conversation
-- have arrived, and which are missing.
pub mod Ranges
pub mod Tracker
pub mod Service
mod Tests
