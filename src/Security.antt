-- ===== src/Security.antt =====
-- internal/security: which paths and which hosts the agent may reach.
pub mod Path
pub mod Network
mod Tests
