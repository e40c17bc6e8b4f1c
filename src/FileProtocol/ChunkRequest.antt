-- ===== src/FileProtocol/ChunkRequest.antt =====
-- `ChunkRequestMessage` of src/network/file_protocol.cpp.
use hyper_share.Prelude.{ℕ, ◌<◌, ◌≡◌, ◌^◌, ◌++◌, refl, [], length}
use hyper_share.Wire.{read_count, Bytes, Reader, ok, ◌>>=◌, return, run}
use hyper_share.Wire.Laws.{Reads-bind, Reads-last, Reads-return}
use hyper_share.Wire.Little.{write_uint32, write_uint64}
use hyper_share.FileProtocol.Fields.{
  read_bytes, write_string, read_string, read_uint32, read_uint64, Reads-string, Reads-uint32,
  Reads-uint64,
}
use hyper_share.FileProtocol.{FileProtocolMessage, run_whole}

pub record ChunkRequestMessage : Type 0 where
  pub file_id : Bytes
  pub chunk_index : ℕ
  pub chunk_size : ℕ

unfoldable pub write_fields : ChunkRequestMessage → Bytes
write_fields msg =
    write_string msg.file_id ++ (write_uint64 msg.chunk_index ++ (write_uint32 msg.chunk_size))

pub read_fields : Reader ChunkRequestMessage
read_fields = do
  file_id ← read_string
  chunk_index ← read_uint64
  chunk_size ← read_uint32
  return (record { file_id = file_id; chunk_index = chunk_index; chunk_size = chunk_size })

-- The ranges of the fields' C++ types.
pub record IsValid (msg : ChunkRequestMessage) : Type 0 where
  pub file_id_range : length msg.file_id < 2 ^ 32
  pub chunk_index_range : msg.chunk_index < 2 ^ 64
  pub chunk_size_range : msg.chunk_size < 2 ^ 32

abbrev pub empty_message : ChunkRequestMessage
empty_message = record { file_id = []; chunk_index = 0; chunk_size = 0 }

pub read-write :
    (msg : ChunkRequestMessage) → IsValid msg → run read_fields (write_fields msg) ≡ ok msg
unfolding read_fields write_fields
read-write msg v = run_whole (
    Reads-bind _ _ _ _ _ _ (Reads-string msg.file_id v.file_id_range) (
      Reads-bind _ _ _ _ _ _ (Reads-uint64 msg.chunk_index v.chunk_index_range)
        (Reads-last _ _ _ _ _ (Reads-uint32 msg.chunk_size v.chunk_size_range) (Reads-return msg))))

pub read_nothing : run read_fields [] ≡ ok empty_message
unfolding read_fields ◌>>=◌ return read_string read_uint32 read_uint64 read_bytes read_count
read_nothing = refl

abbrev pub message : FileProtocolMessage ChunkRequestMessage
message = record {
  type = 0x13;
  write_fields = write_fields;
  read_fields = read_fields;
  empty_message = empty_message;
  IsValid = IsValid;
  carried = λ msg. msg;
  read-write = read-write;
  read_nothing = read_nothing;
}
