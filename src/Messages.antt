-- ===== src/Messages.antt =====
-- The messages of src/network/protocol.cpp, src/network/peer_router.cpp and src/crypto/secure_handshake.cpp that can go behind a header,
-- by their kinds.
mod Runs
use hyper_share.Prelude.{ℕ, ◌≡◌, ◌∷◌, ◌++◌}
use hyper_share.Wire.{Bytes, Error, Result, ok, err}
use hyper_share.Protocol.Payload.{
  MessagePayload, deserialize, deserialize-serialize_payload, deserialize_prefix_payload,
}
use hyper_share.Protocol.Handshake as Handshake
use hyper_share.Protocol.Heartbeat as Heartbeat
use hyper_share.Protocol.PeerAnnounce as PeerAnnounce
use hyper_share.Protocol.FileAnnounce as FileAnnounce
use hyper_share.Protocol.ChunkRequest as ChunkRequest
use hyper_share.Protocol.ChunkData as ChunkData
use hyper_share.Protocol.ErrorResponse as ErrorResponse
use hyper_share.Router.TopologySync as TopologySync
use hyper_share.Router.FileQuery as FileQuery
use hyper_share.Router.RouteUpdate as RouteUpdate
use hyper_share.Router.FileQueryResponse as FileQueryResponse
use hyper_share.Router.Double.{Double}
use hyper_share.Crypto.Handshake.Hello as Hello
use hyper_share.Crypto.Handshake.Ack as Ack
use hyper_share.Crypto.Handshake.Rotation as Rotation

pub data Kind : Type 1 where
  handshake heartbeat peer_announce file_announce chunk_request chunk_data error : Kind
  topology_sync file_query secure_handshake secure_handshake_ack key_rotation : Kind
  route_update file_query_response : (F : Type 0) → Double F → Kind

abbrev pub Message : Kind → Type 0
Message handshake = Handshake.HandshakeMessage
Message heartbeat = Heartbeat.HeartbeatMessage
Message peer_announce = PeerAnnounce.PeerAnnounceMessage
Message file_announce = FileAnnounce.FileAnnounceMessage
Message chunk_request = ChunkRequest.ChunkRequestMessage
Message chunk_data = ChunkData.ChunkDataMessage
Message error = ErrorResponse.ErrorMessage
Message topology_sync = TopologySync.TopologySyncMessage
Message file_query = FileQuery.FileQueryMessage
Message secure_handshake = Hello.SecureHandshakeMessage
Message secure_handshake_ack = Ack.SecureHandshakeAckMessage
Message key_rotation = Rotation.KeyRotationMessage
Message (route_update F d) = RouteUpdate.RouteUpdateMessage F
Message (file_query_response F d) = FileQueryResponse.FileQueryResponseMessage F

abbrev pub payload_of : (kind : Kind) → MessagePayload (Message kind)
payload_of handshake = Handshake.payload
payload_of heartbeat = Heartbeat.payload
payload_of peer_announce = PeerAnnounce.payload
payload_of file_announce = FileAnnounce.payload
payload_of chunk_request = ChunkRequest.payload
payload_of chunk_data = ChunkData.payload
payload_of error = ErrorResponse.payload
payload_of topology_sync = TopologySync.payload
payload_of file_query = FileQuery.payload
payload_of secure_handshake = Hello.payload
payload_of secure_handshake_ack = Ack.payload
payload_of key_rotation = Rotation.payload
payload_of (route_update F d) = RouteUpdate.payload d
payload_of (file_query_response F d) = FileQueryResponse.payload d

-- Of a serialized message of any of the kinds, with fields in the ranges of their types, what the bytes
-- carry is read back: the message itself, but for the times of a route update and of a query response,
-- which come back in whole milliseconds, and their scores, which come back from whole millionths. Bytes
-- behind it are ignored.
pub deserialize-serialize_message :
    (kind : Kind) (msg : Message kind) (rest : Bytes)
    → (payload_of kind).IsValid msg
    → deserialize (payload_of kind) ((payload_of kind).serialize msg ++ rest)
      ≡ ok ((payload_of kind).carried msg)
deserialize-serialize_message kind = deserialize-serialize_payload (payload_of kind)

-- On any proper prefix of a serialized message of any of the kinds, with fields in the ranges of their
-- types, `deserialize` throws.
pub deserialize_prefix_message :
    (kind : Kind) (msg : Message kind) (front back : Bytes) (x : ℕ)
    → (payload_of kind).IsValid msg
    → (payload_of kind).serialize msg ≡ front ++ x ∷ back
    → (e : Error) × (deserialize (payload_of kind) front ≡ err e)
deserialize_prefix_message kind = deserialize_prefix_payload (payload_of kind)
