-- ===== src/Transport.antt =====
-- client_core/src/transport: the wire format.
pub mod Bits
pub mod Frame
pub mod Messages
mod Tests
