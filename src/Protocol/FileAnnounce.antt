-- ===== src/Protocol/FileAnnounce.antt =====
-- `FileAnnounceMessage` of src/network/protocol.cpp.
use hyper_share.Prelude.{ℕ, ◌<◌, ◌^◌, ◌++◌, List, length, All}
use hyper_share.Wire.{
  Bytes, Reader, ◌>>=◌, return, read_count, write_all, write_size, write_uint64, write_string,
  read_uint32, read_uint64, read_string,
}
use hyper_share.Wire.Laws.{Reads, fields}
use hyper_share.Wire.Prefix.{Extends, prefixes}
use hyper_share.Protocol.Payload.{MessagePayload}

pub record FileAnnounceMessage : Type 0 where
  pub file_id : Bytes
  pub filename : Bytes
  pub file_size : ℕ
  pub file_hash : Bytes
  pub tags : List Bytes

unfoldable pub serialize : FileAnnounceMessage → Bytes
serialize msg =
    write_string msg.file_id
    ++ (write_string msg.filename
        ++ (write_uint64 msg.file_size
            ++ (write_string msg.file_hash
                ++ (write_size (length msg.tags) ++ (write_all write_string msg.tags)))))

unfoldable pub read : Reader FileAnnounceMessage
read = do
  file_id ← read_string
  filename ← read_string
  file_size ← read_uint64
  file_hash ← read_string
  tag_count ← read_uint32
  tags ← read_count tag_count read_string
  return (record {
    file_id = file_id;
    filename = filename;
    file_size = file_size;
    file_hash = file_hash;
    tags = tags;
  })

-- The ranges of the fields' C++ types.
pub record IsValid (msg : FileAnnounceMessage) : Type 0 where
  pub file_id_range : length msg.file_id < 2 ^ 32
  pub filename_range : length msg.filename < 2 ^ 32
  pub file_size_range : msg.file_size < 2 ^ 64
  pub file_hash_range : length msg.file_hash < 2 ^ 32
  pub tags_range : length msg.tags < 2 ^ 32
  pub each_tag_range : All (λ (x : Bytes). length x < 2 ^ 32) msg.tags

pub read-serialize : (msg : FileAnnounceMessage) → IsValid msg → Reads read (serialize msg) msg
unfolding read serialize
read-serialize msg v = search fields depth 14

pub read-Extends : Extends read
unfolding read
read-Extends = search prefixes depth 14

abbrev pub payload : MessagePayload FileAnnounceMessage
payload = record {
  serialize = serialize;
  read = read;
  IsValid = IsValid;
  carried = λ msg. msg;
  read-serialize = read-serialize;
  read-Extends = read-Extends;
}
