-- ===== src/Pii.antt =====
-- internal/pii: the detection of personal data and secrets, and the gate before the provider.
pub mod Classifier
pub mod Luhn
pub mod Gate
mod Tests
