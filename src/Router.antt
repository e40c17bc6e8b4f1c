-- ===== src/Router.antt =====
-- The messages of `PeerRouter`, src/network/peer_router.cpp.
pub mod TopologySync
pub mod FileQuery
pub mod Double
pub mod RouteUpdate
pub mod FileQueryResponse
pub mod Table
pub mod Files
pub mod Queries
pub mod Rounds
mod Runs
