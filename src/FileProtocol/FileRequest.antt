-- ===== src/FileProtocol/FileRequest.antt =====
-- `FileRequestMessage` of src/network/file_protocol.cpp.
use hyper_share.Prelude.{ℕ, ◌<◌, ◌≡◌, ◌^◌, ◌++◌, refl, [], length}
use hyper_share.Wire.{read_count, Bytes, Reader, ok, ◌>>=◌, return, run}
use hyper_share.Wire.Laws.{Reads-bind, Reads-last, Reads-return}
use hyper_share.Wire.Little.{write_uint32, write_uint64}
use hyper_share.FileProtocol.Fields.{
  read_bytes, write_string, read_string, read_uint32, read_uint64, Reads-string, Reads-uint32,
  Reads-uint64,
}
use hyper_share.FileProtocol.{FileProtocolMessage, run_whole}

pub record FileRequestMessage : Type 0 where
  pub file_id : Bytes
  pub start_offset : ℕ
  pub request_length : ℕ
  pub preferred_chunk_size : ℕ

unfoldable pub write_fields : FileRequestMessage → Bytes
write_fields msg =
    write_string msg.file_id
    ++ (write_uint64 msg.start_offset
        ++ (write_uint64 msg.request_length ++ (write_uint32 msg.preferred_chunk_size)))

pub read_fields : Reader FileRequestMessage
read_fields = do
  file_id ← read_string
  start_offset ← read_uint64
  request_length ← read_uint64
  preferred_chunk_size ← read_uint32
  return (record {
    file_id = file_id;
    start_offset = start_offset;
    request_length = request_length;
    preferred_chunk_size = preferred_chunk_size;
  })

-- The ranges of the fields' C++ types.
pub record IsValid (msg : FileRequestMessage) : Type 0 where
  pub file_id_range : length msg.file_id < 2 ^ 32
  pub start_offset_range : msg.start_offset < 2 ^ 64
  pub request_length_range : msg.request_length < 2 ^ 64
  pub preferred_chunk_size_range : msg.preferred_chunk_size < 2 ^ 32

abbrev pub empty_message : FileRequestMessage
empty_message = record {
  file_id = [];
  start_offset = 0;
  request_length = 0;
  preferred_chunk_size = 0;
}

pub read-write :
    (msg : FileRequestMessage) → IsValid msg → run read_fields (write_fields msg) ≡ ok msg
unfolding read_fields write_fields
read-write msg v = run_whole (
    Reads-bind _ _ _ _ _ _ (Reads-string msg.file_id v.file_id_range) (
      Reads-bind _ _ _ _ _ _ (Reads-uint64 msg.start_offset v.start_offset_range) (
        Reads-bind _ _ _ _ _ _ (Reads-uint64 msg.request_length v.request_length_range) (
          Reads-last _ _ _ _ _ (Reads-uint32 msg.preferred_chunk_size v.preferred_chunk_size_range)
            (Reads-return msg)))))

pub read_nothing : run read_fields [] ≡ ok empty_message
unfolding read_fields ◌>>=◌ return read_string read_uint32 read_uint64 read_bytes read_count
read_nothing = refl

abbrev pub message : FileProtocolMessage FileRequestMessage
message = record {
  type = 0x11;
  write_fields = write_fields;
  read_fields = read_fields;
  empty_message = empty_message;
  IsValid = IsValid;
  carried = λ msg. msg;
  read-write = read-write;
  read_nothing = read_nothing;
}
