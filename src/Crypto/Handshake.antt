-- ===== src/Crypto/Handshake.antt =====
-- The secure handshake, src/crypto/secure_handshake.cpp.
pub mod Arrays
pub mod Hello
pub mod Ack
pub mod Rotation
pub mod Phases
pub mod Halts
mod Runs
