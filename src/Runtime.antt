-- ===== src/Runtime.antt =====
-- client_core/include/client_core/runtime: completions, invalidations and recovery.
pub mod Registry
pub mod Bus
pub mod Recovery
mod Tests
