-- ===== src/App.antt =====
-- internal/app: the files that hold the key material.
pub mod KeyFiles
