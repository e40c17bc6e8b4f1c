-- ===== src/Transfer.antt =====
-- The transfer of files, src/transfer.
pub mod Bits
pub mod Session
pub mod FlowControl
pub mod Bandwidth
pub mod Manager
mod Runs
