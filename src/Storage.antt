-- ===== src/Storage.antt =====
-- client_core's storage: the queue of write commands, and the table of AI suggestions.
pub mod Queue
pub mod Suggestions
mod Tests
