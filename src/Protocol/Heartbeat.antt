-- ===== src/Protocol/Heartbeat.antt =====
-- `HeartbeatMessage` of src/network/protocol.cpp.
use hyper_share.Prelude.{ℕ, ◌<◌, ◌^◌, ◌++◌}
use hyper_share.Wire.{
  Bytes, Reader, ◌>>=◌, return, write_uint32, write_uint64, read_uint32, read_uint64,
}
use hyper_share.Wire.Laws.{Reads, fields}
use hyper_share.Wire.Prefix.{Extends, prefixes}
use hyper_share.Protocol.Payload.{MessagePayload}

pub record HeartbeatMessage : Type 0 where
  pub timestamp : ℕ
  pub active_connections : ℕ
  pub available_files : ℕ

unfoldable pub serialize : HeartbeatMessage → Bytes
serialize msg =
    write_uint64 msg.timestamp
    ++ (write_uint32 msg.active_connections ++ (write_uint32 msg.available_files))

unfoldable pub read : Reader HeartbeatMessage
read = do
  timestamp ← read_uint64
  active_connections ← read_uint32
  available_files ← read_uint32
  return (record {
    timestamp = timestamp;
    active_connections = active_connections;
    available_files = available_files;
  })

-- The ranges of the fields' C++ types.
pub record IsValid (msg : HeartbeatMessage) : Type 0 where
  pub timestamp_range : msg.timestamp < 2 ^ 64
  pub active_connections_range : msg.active_connections < 2 ^ 32
  pub available_files_range : msg.available_files < 2 ^ 32

pub read-serialize : (msg : HeartbeatMessage) → IsValid msg → Reads read (serialize msg) msg
unfolding read serialize
read-serialize msg v = search fields depth 14

pub read-Extends : Extends read
unfolding read
read-Extends = search prefixes depth 14

abbrev pub payload : MessagePayload HeartbeatMessage
payload = record {
  serialize = serialize;
  read = read;
  IsValid = IsValid;
  carried = λ msg. msg;
  read-serialize = read-serialize;
  read-Extends = read-Extends;
}
