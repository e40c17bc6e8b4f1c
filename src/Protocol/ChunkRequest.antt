-- ===== src/Protocol/ChunkRequest.antt =====
-- `ChunkRequestMessage` of src/network/protocol.cpp.
use hyper_share.Prelude.{ℕ, ◌<◌, ◌^◌, ◌++◌, length}
use hyper_share.Wire.{
  Bytes, Reader, ◌>>=◌, return, write_uint32, write_uint64, write_string, read_uint32, read_uint64,
  read_string,
}
use hyper_share.Wire.Laws.{Reads, fields}
use hyper_share.Wire.Prefix.{Extends, prefixes}
use hyper_share.Protocol.Payload.{MessagePayload}

pub record ChunkRequestMessage : Type 0 where
  pub file_id : Bytes
  pub chunk_index : ℕ
  pub chunk_size : ℕ

unfoldable pub serialize : ChunkRequestMessage → Bytes
serialize msg =
    write_string msg.file_id ++ (write_uint64 msg.chunk_index ++ (write_uint32 msg.chunk_size))

unfoldable pub read : Reader ChunkRequestMessage
read = do
  file_id ← read_string
  chunk_index ← read_uint64
  chunk_size ← read_uint32
  return (record { file_id = file_id; chunk_index = chunk_index; chunk_size = chunk_size })

-- The ranges of the fields' C++ types.
pub record IsValid (msg : ChunkRequestMessage) : Type 0 where
  pub file_id_range : length msg.file_id < 2 ^ 32
  pub chunk_index_range : msg.chunk_index < 2 ^ 64
  pub chunk_size_range : msg.chunk_size < 2 ^ 32

pub read-serialize : (msg : ChunkRequestMessage) → IsValid msg → Reads read (serialize msg) msg
unfolding read serialize
read-serialize msg v = search fields depth 14

pub read-Extends : Extends read
unfolding read
read-Extends = search prefixes depth 14

abbrev pub payload : MessagePayload ChunkRequestMessage
payload = record {
  serialize = serialize;
  read = read;
  IsValid = IsValid;
  carried = λ msg. msg;
  read-serialize = read-serialize;
  read-Extends = read-Extends;
}
