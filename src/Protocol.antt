-- ===== src/Protocol.antt =====
-- src/network/protocol.cpp: the messages of the peer protocol, one to a module, and their header.
pub mod Payload
pub mod Handshake
pub mod Heartbeat
pub mod PeerAnnounce
pub mod FileAnnounce
pub mod ChunkRequest
pub mod ChunkData
pub mod ErrorResponse
pub mod Checksum
pub mod Header
mod Runs
