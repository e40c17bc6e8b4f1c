-- ===== src/FileProtocol/FileAnnounce.antt =====
-- `FileAnnounceMessage` of src/network/file_protocol.cpp.
use hyper_share.Prelude.{take, drop, ℕ, ◌<◌, ◌≡◌, ◌^◌, ◌++◌, refl, List, [], length, All}
use hyper_share.Wire.{read_count, Bytes, Reader, ok, ◌>>=◌, return, run}
use hyper_share.Wire.Laws.{Reads-bind, Reads-last, Reads-return}
use hyper_share.Wire.Little.{write_uint64}
use hyper_share.FileProtocol.Fields.{
  read_uint32, read_bytes, write_string, write_vector_strings, read_string, read_vector_strings,
  read_uint64, Reads-string, Reads-vector_strings, Reads-uint64,
}
use hyper_share.FileProtocol.{FileProtocolMessage, run_whole}

pub record FileAnnounceMessage : Type 0 where
  pub file_id : Bytes
  pub filename : Bytes
  pub file_size : ℕ
  pub file_hash : Bytes
  pub tags : List Bytes

unfoldable pub write_fields : FileAnnounceMessage → Bytes
write_fields msg =
    write_string msg.file_id
    ++ (write_string msg.filename
        ++ (write_uint64 msg.file_size
            ++ (write_string msg.file_hash ++ (write_vector_strings msg.tags))))

pub read_fields : Reader FileAnnounceMessage
read_fields = do
  file_id ← read_string
  filename ← read_string
  file_size ← read_uint64
  file_hash ← read_string
  tags ← read_vector_strings
  return (record {
    file_id = file_id;
    filename = filename;
    file_size = file_size;
    file_hash = file_hash;
    tags = tags;
  })

-- The ranges of the fields' C++ types.
pub record IsValid (msg : FileAnnounceMessage) : Type 0 where
  pub file_id_range : length msg.file_id < 2 ^ 32
  pub filename_range : length msg.filename < 2 ^ 32
  pub file_size_range : msg.file_size < 2 ^ 64
  pub file_hash_range : length msg.file_hash < 2 ^ 32
  pub tags_range : length msg.tags < 2 ^ 32
  pub each_tags_range : All (λ (x : Bytes). length x < 2 ^ 32) msg.tags

abbrev pub empty_message : FileAnnounceMessage
empty_message = record { file_id = []; filename = []; file_size = 0; file_hash = []; tags = [] }

pub read-write :
    (msg : FileAnnounceMessage) → IsValid msg → run read_fields (write_fields msg) ≡ ok msg
unfolding read_fields write_fields
read-write msg v = run_whole (
    Reads-bind _ _ _ _ _ _ (Reads-string msg.file_id v.file_id_range) (
      Reads-bind _ _ _ _ _ _ (Reads-string msg.filename v.filename_range) (
        Reads-bind _ _ _ _ _ _ (Reads-uint64 msg.file_size v.file_size_range) (
          Reads-bind _ _ _ _ _ _ (Reads-string msg.file_hash v.file_hash_range) (
            Reads-last _ _ _ _ _ (Reads-vector_strings msg.tags v.tags_range v.each_tags_range)
              (Reads-return msg))))))

pub read_nothing : run read_fields [] ≡ ok empty_message
unfolding read_fields ◌>>=◌ return read_string read_vector_strings read_uint64 read_bytes read_count
    read_uint32 drop take
read_nothing = refl

abbrev pub message : FileProtocolMessage FileAnnounceMessage
message = record {
  type = 0x10;
  write_fields = write_fields;
  read_fields = read_fields;
  empty_message = empty_message;
  IsValid = IsValid;
  carried = λ msg. msg;
  read-write = read-write;
  read_nothing = read_nothing;
}
