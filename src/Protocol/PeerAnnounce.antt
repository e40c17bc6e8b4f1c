-- ===== src/Protocol/PeerAnnounce.antt =====
-- `PeerAnnounceMessage` of src/network/protocol.cpp.
use hyper_share.Prelude.{ℕ, ◌<◌, ◌^◌, ◌++◌, length}
use hyper_share.Wire.{
  Bytes, Reader, ◌>>=◌, return, write_uint16, write_uint32, write_uint64, write_string, read_uint16,
  read_uint32, read_uint64, read_string,
}
use hyper_share.Wire.Laws.{Reads, fields}
use hyper_share.Wire.Prefix.{Extends, prefixes}
use hyper_share.Protocol.Payload.{MessagePayload}

pub record PeerAnnounceMessage : Type 0 where
  pub peer_id : ℕ
  pub ip_address : Bytes
  pub port : ℕ
  pub last_seen : ℕ

unfoldable pub serialize : PeerAnnounceMessage → Bytes
serialize msg =
    write_uint32 msg.peer_id
    ++ (write_string msg.ip_address ++ (write_uint16 msg.port ++ (write_uint64 msg.last_seen)))

unfoldable pub read : Reader PeerAnnounceMessage
read = do
  peer_id ← read_uint32
  ip_address ← read_string
  port ← read_uint16
  last_seen ← read_uint64
  return (record { peer_id = peer_id; ip_address = ip_address; port = port; last_seen = last_seen })

-- The ranges of the fields' C++ types.
pub record IsValid (msg : PeerAnnounceMessage) : Type 0 where
  pub peer_id_range : msg.peer_id < 2 ^ 32
  pub ip_address_range : length msg.ip_address < 2 ^ 32
  pub port_range : msg.port < 2 ^ 16
  pub last_seen_range : msg.last_seen < 2 ^ 64

pub read-serialize : (msg : PeerAnnounceMessage) → IsValid msg → Reads read (serialize msg) msg
unfolding read serialize
read-serialize msg v = search fields depth 14

pub read-Extends : Extends read
unfolding read
read-Extends = search prefixes depth 14

abbrev pub payload : MessagePayload PeerAnnounceMessage
payload = record {
  serialize = serialize;
  read = read;
  IsValid = IsValid;
  carried = λ msg. msg;
  read-serialize = read-serialize;
  read-Extends = read-Extends;
}
