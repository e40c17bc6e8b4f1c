-- ===== src/FileProtocol/ChunkAck.antt =====
-- `ChunkAckMessage` of src/network/file_protocol.cpp.
use hyper_share.Prelude.{ℕ, ◌<◌, ◌≡◌, ◌^◌, ◌++◌, refl, Bool, false, [], length}
use hyper_share.Wire.{read_count, Bytes, Reader, ok, ◌>>=◌, return, run}
use hyper_share.Wire.Laws.{Reads-bind, Reads-last, Reads-return}
use hyper_share.Wire.Little.{write_uint64}
use hyper_share.FileProtocol.Fields.{
  read_bytes, write_bool, write_string, read_bool, read_string, read_uint64, Reads-bool,
  Reads-string, Reads-uint64,
}
use hyper_share.FileProtocol.{FileProtocolMessage, run_whole}

pub record ChunkAckMessage : Type 0 where
  pub file_id : Bytes
  pub chunk_index : ℕ
  pub is_success : Bool
  pub error_message : Bytes

unfoldable pub write_fields : ChunkAckMessage → Bytes
write_fields msg =
    write_string msg.file_id
    ++ (write_uint64 msg.chunk_index
        ++ (write_bool msg.is_success ++ (write_string msg.error_message)))

pub read_fields : Reader ChunkAckMessage
read_fields = do
  file_id ← read_string
  chunk_index ← read_uint64
  is_success ← read_bool
  error_message ← read_string
  return (record {
    file_id = file_id;
    chunk_index = chunk_index;
    is_success = is_success;
    error_message = error_message;
  })

-- The ranges of the fields' C++ types.
pub record IsValid (msg : ChunkAckMessage) : Type 0 where
  pub file_id_range : length msg.file_id < 2 ^ 32
  pub chunk_index_range : msg.chunk_index < 2 ^ 64
  pub error_message_range : length msg.error_message < 2 ^ 32

abbrev pub empty_message : ChunkAckMessage
empty_message = record { file_id = []; chunk_index = 0; is_success = false; error_message = [] }

pub read-write : (msg : ChunkAckMessage) → IsValid msg → run read_fields (write_fields msg) ≡ ok msg
unfolding read_fields write_fields
read-write msg v = run_whole (
    Reads-bind _ _ _ _ _ _ (Reads-string msg.file_id v.file_id_range) (
      Reads-bind _ _ _ _ _ _ (Reads-uint64 msg.chunk_index v.chunk_index_range) (
        Reads-bind _ _ _ _ _ _ (Reads-bool msg.is_success) (
          Reads-last _ _ _ _ _ (Reads-string msg.error_message v.error_message_range)
            (Reads-return msg)))))

pub read_nothing : run read_fields [] ≡ ok empty_message
unfolding read_fields ◌>>=◌ return read_bool read_string read_uint64 read_bytes read_count
read_nothing = refl

abbrev pub message : FileProtocolMessage ChunkAckMessage
message = record {
  type = 0x15;
  write_fields = write_fields;
  read_fields = read_fields;
  empty_message = empty_message;
  IsValid = IsValid;
  carried = λ msg. msg;
  read-write = read-write;
  read_nothing = read_nothing;
}
