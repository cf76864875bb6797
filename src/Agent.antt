-- ===== src/Agent.antt =====
-- The agent (internal/agent).
pub mod Gguf
mod Tests
