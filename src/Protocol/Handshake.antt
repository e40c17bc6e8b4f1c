-- ===== src/Protocol/Handshake.antt =====
-- `HandshakeMessage` of src/network/protocol.cpp.
use hyper_share.Prelude.{ℕ, ◌<◌, ◌^◌, ◌++◌, length}
use hyper_share.Wire.{
  Bytes, Reader, ◌>>=◌, return, write_uint16, write_uint32, write_string, read_uint16, read_uint32,
  read_string,
}
use hyper_share.Wire.Laws.{Reads, fields}
use hyper_share.Wire.Prefix.{Extends, prefixes}
use hyper_share.Protocol.Payload.{MessagePayload}

pub record HandshakeMessage : Type 0 where
  pub peer_id : ℕ
  pub listen_port : ℕ
  pub peer_name : Bytes
  pub capabilities : ℕ

unfoldable pub serialize : HandshakeMessage → Bytes
serialize msg =
    write_uint32 msg.peer_id
    ++ (write_uint16 msg.listen_port
        ++ (write_string msg.peer_name ++ (write_uint32 msg.capabilities)))

unfoldable pub read : Reader HandshakeMessage
read = do
  peer_id ← read_uint32
  listen_port ← read_uint16
  peer_name ← read_string
  capabilities ← read_uint32
  return (record {
    peer_id = peer_id;
    listen_port = listen_port;
    peer_name = peer_name;
    capabilities = capabilities;
  })

-- The ranges of the fields' C++ types.
pub record IsValid (msg : HandshakeMessage) : Type 0 where
  pub peer_id_range : msg.peer_id < 2 ^ 32
  pub listen_port_range : msg.listen_port < 2 ^ 16
  pub peer_name_range : length msg.peer_name < 2 ^ 32
  pub capabilities_range : msg.capabilities < 2 ^ 32

pub read-serialize : (msg : HandshakeMessage) → IsValid msg → Reads read (serialize msg) msg
unfolding read serialize
read-serialize msg v = search fields depth 14

pub read-Extends : Extends read
unfolding read
read-Extends = search prefixes depth 14

abbrev pub payload : MessagePayload HandshakeMessage
payload = record {
  serialize = serialize;
  read = read;
  IsValid = IsValid;
  carried = λ msg. msg;
  read-serialize = read-serialize;
  read-Extends = read-Extends;
}
