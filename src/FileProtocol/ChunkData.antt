-- ===== src/FileProtocol/ChunkData.antt =====
-- `ChunkDataMessage` of src/network/file_protocol.cpp.
use hyper_share.Prelude.{take, drop, ℕ, ◌<◌, ◌≡◌, ◌^◌, ◌++◌, refl, [], length}
use hyper_share.Wire.{read_count, Bytes, Reader, ok, ◌>>=◌, return, run}
use hyper_share.Wire.Laws.{Reads-bind, Reads-last, Reads-return}
use hyper_share.Wire.Little.{write_uint64}
use hyper_share.FileProtocol.Fields.{
  read_uint32, read_bytes, write_vector_bytes, write_string, read_vector_bytes, read_string,
  read_uint64, Reads-vector_bytes, Reads-string, Reads-uint64,
}
use hyper_share.FileProtocol.{FileProtocolMessage, run_whole}

pub record ChunkDataMessage : Type 0 where
  pub file_id : Bytes
  pub chunk_index : ℕ
  pub chunk_data : Bytes
  pub chunk_hash : Bytes

unfoldable pub write_fields : ChunkDataMessage → Bytes
write_fields msg =
    write_string msg.file_id
    ++ (write_uint64 msg.chunk_index
        ++ (write_vector_bytes msg.chunk_data ++ (write_string msg.chunk_hash)))

pub read_fields : Reader ChunkDataMessage
read_fields = do
  file_id ← read_string
  chunk_index ← read_uint64
  chunk_data ← read_vector_bytes
  chunk_hash ← read_string
  return (record {
    file_id = file_id;
    chunk_index = chunk_index;
    chunk_data = chunk_data;
    chunk_hash = chunk_hash;
  })

-- The ranges of the fields' C++ types.
pub record IsValid (msg : ChunkDataMessage) : Type 0 where
  pub file_id_range : length msg.file_id < 2 ^ 32
  pub chunk_index_range : msg.chunk_index < 2 ^ 64
  pub chunk_data_range : length msg.chunk_data < 2 ^ 32
  pub chunk_hash_range : length msg.chunk_hash < 2 ^ 32

abbrev pub empty_message : ChunkDataMessage
empty_message = record { file_id = []; chunk_index = 0; chunk_data = []; chunk_hash = [] }

pub read-write :
    (msg : ChunkDataMessage) → IsValid msg → run read_fields (write_fields msg) ≡ ok msg
unfolding read_fields write_fields
read-write msg v = run_whole (
    Reads-bind _ _ _ _ _ _ (Reads-string msg.file_id v.file_id_range) (
      Reads-bind _ _ _ _ _ _ (Reads-uint64 msg.chunk_index v.chunk_index_range) (
        Reads-bind _ _ _ _ _ _ (Reads-vector_bytes msg.chunk_data v.chunk_data_range) (
          Reads-last _ _ _ _ _ (Reads-string msg.chunk_hash v.chunk_hash_range)
            (Reads-return msg)))))

pub read_nothing : run read_fields [] ≡ ok empty_message
unfolding read_fields ◌>>=◌ return read_vector_bytes read_string read_uint64 read_bytes read_count
    read_uint32 drop take
read_nothing = refl

abbrev pub message : FileProtocolMessage ChunkDataMessage
message = record {
  type = 0x14;
  write_fields = write_fields;
  read_fields = read_fields;
  empty_message = empty_message;
  IsValid = IsValid;
  carried = λ msg. msg;
  read-write = read-write;
  read_nothing = read_nothing;
}
