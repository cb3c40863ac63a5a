-- ===== src/Storage.antt =====
-- internal/storage: the encryption of stored messages.
pub mod Encryption
pub mod Messages
pub mod Rotation
pub mod Migration
mod Tests
