-- ===== src/Memory.antt =====
-- internal/memory: the facts taken from a conversation, and the summary of its older part.
pub mod Facts
pub mod Summarizer
mod Tests
