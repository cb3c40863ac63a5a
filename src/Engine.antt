-- ===== src/Engine.antt =====
-- internal/engine: sessions, the context window, and the loop of a turn.
pub mod Context
pub mod Session
pub mod Turn
pub mod Manager
pub mod Persisted
mod Tests
