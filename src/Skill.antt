-- ===== src/Skill.antt =====
-- internal/skill: what a skill may touch.
pub mod Broker
mod Tests
