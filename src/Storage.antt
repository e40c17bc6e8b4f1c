-- ===== src/Storage.antt =====
-- src/storage
pub mod Metadata
pub mod Index
mod Runs
