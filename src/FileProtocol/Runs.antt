-- ===== src/FileProtocol/Runs.antt =====
-- Runs of a file response and a chunk acknowledgement.
use hyper_share.Prelude.{◌≡◌, [], ◌∷◌, ◌++◌, arith, true, false, take, length, ◌<◌, ◌^◌}
use hyper_share.Wire.{ok}
use hyper_share.Wire.Little.{write_size, write_uint32, write_uint64}
use hyper_share.Storage.Metadata.{FileMetadata}
use hyper_share.FileProtocol.{serialize, deserialize, run_on}
use hyper_share.FileProtocol.Fields.{write_string, write_bool}
use hyper_share.FileProtocol.ChunkAck.{ChunkAckMessage, IsValid, write_fields, empty_message}
use hyper_share.FileProtocol.FileResponse.{FileResponseMessage}
use hyper_share.FileProtocol.FileResponse as FileResponse
use hyper_share.FileProtocol.Exchange.{
  file_response, chunk_ack, message_of, deserialize-serialize_file, deserialize-Misframed,
}

abbrev small_file : FileMetadata
small_file = record {
  file_id = b'f' ∷ [];
  file_hash = [];
  filename = b'f' ∷ [];
  file_path = [];
  file_size = 5;
  created_at = 1;
  modified_at = 2;
  chunk_hashes = (b'0' ∷ b'a' ∷ []) ∷ [];
  chunk_size = 4;
  chunk_count = 1;
  file_type = [];
  description = [];
  tags = [];
}

abbrev acknowledged : ChunkAckMessage
acknowledged = record {
  file_id = b'i' ∷ b'd' ∷ [];
  chunk_index = 70000;
  is_success = true;
  error_message = [];
}

acknowledged-IsValid : IsValid acknowledged
acknowledged-IsValid = record {
  file_id_range = omega arith;
  chunk_index_range = omega arith;
  error_message_range = omega arith;
}

acknowledged-is_short : length (write_fields acknowledged) < 2 ^ 32
unfolding write_fields write_string write_size write_uint32 write_uint64 write_bool take
acknowledged-is_short = omega arith

-- A refusal that holds metadata, of which nothing is sent.
abbrev refused : FileMetadata → FileResponseMessage
refused metadata = record {
  file_id = b'i' ∷ b'd' ∷ [];
  accepted = false;
  error_message = b'n' ∷ b'o' ∷ [];
  metadata = metadata;
}

abbrev other_file : FileMetadata
other_file = record small_file { file_size = 9; tags = [] ∷ [] }

refused-IsValid : FileResponse.IsValid (refused other_file)
refused-IsValid = record {
  file_id_range = omega arith;
  error_message_range = omega arith;
  metadata_sent = tt;
}

refused-is_short : length (FileResponse.write_fields (refused other_file)) < 2 ^ 32
unfolding FileResponse.write_fields FileResponse.write_metadata write_string write_size write_uint32
    write_bool take
refused-is_short = omega arith

deserialize-serialize_file_example :
    deserialize
      (message_of small_file file_response)
      (serialize (message_of small_file file_response) (refused other_file))
    ≡ ok (refused small_file)
deserialize-serialize_file_example =
    deserialize-serialize_file small_file file_response (refused other_file) refused-IsValid
      refused-is_short

deserialize-Misframed_example :
    deserialize
      (message_of small_file chunk_ack)
      (serialize (message_of small_file chunk_ack) acknowledged ++ 7 ∷ [])
    ≡ ok empty_message
deserialize-Misframed_example =
    deserialize-Misframed small_file chunk_ack acknowledged
      (serialize (message_of small_file chunk_ack) acknowledged ++ 7 ∷ []) acknowledged-is_short
      (run_on 7 [])
