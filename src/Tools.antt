-- ===== src/Tools.antt =====
-- internal/tools: the tool dispatcher.
pub mod Dispatcher
mod Tests
