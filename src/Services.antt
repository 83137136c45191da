-- ===== src/Services.antt =====
-- client_core's services above the runtime: the suggestions of the AI.
pub mod Suggestions
mod Tests
