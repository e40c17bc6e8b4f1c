-- ===== src/Crypto.antt =====
-- The cryptographic layer, src/crypto.
pub mod Nonces
pub mod Encryption
pub mod SecureMessage
pub mod Keys
pub mod Handshake
mod Runs
