-- ===== src/Protocol/ChunkData.antt =====
-- `ChunkDataMessage` of src/network/protocol.cpp.
-- The field `data` is called `chunk_bytes` here.
use hyper_share.Prelude.{ℕ, ◌<◌, ◌^◌, ◌++◌, length}
use hyper_share.Wire.{
  Bytes, Error, Reader, ◌>>=◌, return, write_size, write_bytes, write_uint64, write_string,
  read_uint32, read_uint64, read_bytes, read_string,
}
use hyper_share.Wire.Laws.{Reads, Reads-bind, Reads-string, Reads-uint64, Reads-sized, fields}
use hyper_share.Wire.Prefix.{Extends, prefixes}
use hyper_share.Protocol.Payload.{MessagePayload}

pub record ChunkDataMessage : Type 0 where
  pub file_id : Bytes
  pub chunk_index : ℕ
  pub chunk_bytes : Bytes
  pub chunk_hash : Bytes

unfoldable pub serialize : ChunkDataMessage → Bytes
serialize msg =
    write_string msg.file_id
    ++ (write_uint64 msg.chunk_index
        ++ (write_size (length msg.chunk_bytes)
            ++ (write_bytes msg.chunk_bytes ++ (write_string msg.chunk_hash))))

unfoldable pub read : Reader ChunkDataMessage
read = do
  file_id ← read_string
  chunk_index ← read_uint64
  data_size ← read_uint32
  chunk_bytes ← read_bytes Error.chunk data_size
  chunk_hash ← read_string
  return (record {
    file_id = file_id;
    chunk_index = chunk_index;
    chunk_bytes = chunk_bytes;
    chunk_hash = chunk_hash;
  })

-- The ranges of the fields' C++ types.
pub record IsValid (msg : ChunkDataMessage) : Type 0 where
  pub file_id_range : length msg.file_id < 2 ^ 32
  pub chunk_index_range : msg.chunk_index < 2 ^ 64
  pub chunk_bytes_range : length msg.chunk_bytes < 2 ^ 32
  pub chunk_hash_range : length msg.chunk_hash < 2 ^ 32

pub read-serialize : (msg : ChunkDataMessage) → IsValid msg → Reads read (serialize msg) msg
unfolding read serialize
read-serialize msg v = Reads-bind _ _ _ _ _ _ (Reads-string _ v.file_id_range) (
    Reads-bind _ _ _ _ _ _ (Reads-uint64 _ v.chunk_index_range)
      (Reads-sized Error.chunk _ msg.chunk_bytes _ _ v.chunk_bytes_range (search fields)))

pub read-Extends : Extends read
unfolding read
read-Extends = search prefixes depth 14

abbrev pub payload : MessagePayload ChunkDataMessage
payload = record {
  serialize = serialize;
  read = read;
  IsValid = IsValid;
  carried = λ msg. msg;
  read-serialize = read-serialize;
  read-Extends = read-Extends;
}
