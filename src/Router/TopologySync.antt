-- ===== src/Router/TopologySync.antt =====
-- `TopologySyncMessage` of src/network/peer_router.cpp.
use hyper_share.Prelude.{ℕ, ◌<◌, ◌^◌, ◌++◌, List, length, All}
use hyper_share.Wire.{Bytes, Reader, ◌>>=◌, return, read_count, write_all}
use hyper_share.Wire.Laws.{Reads}
use hyper_share.Wire.Prefix.{Extends}
use hyper_share.Wire.Little.{
  write_uint32, write_size, write_halves, read_uint32, read_halves, little_fields, little_prefixes,
}
use hyper_share.Protocol.Payload.{MessagePayload}

pub record TopologySyncMessage : Type 0 where
  pub requesting_peer_id : ℕ
  pub last_known_sequence : ℕ
  pub known_peers : List ℕ

unfoldable pub serialize : TopologySyncMessage → Bytes
serialize msg =
    write_uint32 msg.requesting_peer_id
    ++ (write_halves msg.last_known_sequence
        ++ (write_size (length msg.known_peers) ++ write_all write_uint32 msg.known_peers))

unfoldable pub read : Reader TopologySyncMessage
read = do
  requesting_peer_id ← read_uint32
  last_known_sequence ← read_halves
  peer_count ← read_uint32
  known_peers ← read_count peer_count read_uint32
  return (record {
    requesting_peer_id = requesting_peer_id;
    last_known_sequence = last_known_sequence;
    known_peers = known_peers;
  })

-- The ranges of the fields' C++ types.
pub record IsValid (msg : TopologySyncMessage) : Type 0 where
  pub requesting_peer_id_range : msg.requesting_peer_id < 2 ^ 32
  pub last_known_sequence_range : msg.last_known_sequence < 2 ^ 64
  pub known_peers_range : length msg.known_peers < 2 ^ 32
  pub each_peer_range : All (λ (x : ℕ). x < 2 ^ 32) msg.known_peers

pub read-serialize : (msg : TopologySyncMessage) → IsValid msg → Reads read (serialize msg) msg
unfolding read serialize
read-serialize msg v = search little_fields depth 14

pub read-Extends : Extends read
unfolding read
read-Extends = search little_prefixes depth 14

abbrev pub payload : MessagePayload TopologySyncMessage
payload = record {
  serialize = serialize;
  read = read;
  IsValid = IsValid;
  carried = λ msg. msg;
  read-serialize = read-serialize;
  read-Extends = read-Extends;
}
