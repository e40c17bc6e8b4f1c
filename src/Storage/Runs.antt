-- ===== src/Storage/Runs.antt =====
-- Runs of the metadata of a small file.
use hyper_share.Prelude.{◌≡◌, refl, [], ◌∷◌, ◌++◌, arith}
use hyper_share.Wire.{Bytes, ok, write_bytes, write_all}
use hyper_share.Wire.Little.{write_uint32, write_uint64, write_size, write_string}
use hyper_share.Storage.Metadata.{FileMetadata}
use hyper_share.Storage.Metadata.Codec.{
  serialize, deserialize, IsValid, written, deserialize-serialize_metadata,
}

abbrev small_file : FileMetadata
small_file = record {
  file_id = b'f' ∷ [];
  file_hash = [];
  filename = b'f' ∷ [];
  file_path = [];
  file_size = 5;
  created_at = 1;
  modified_at = 2;
  chunk_hashes = (b'0' ∷ b'a' ∷ []) ∷ [];
  chunk_size = 4;
  chunk_count = 2;
  file_type = [];
  description = [];
  tags = (b't' ∷ []) ∷ [];
}

small_file-IsValid : IsValid small_file
small_file-IsValid = record {
  file_id_range = omega arith;
  file_hash_range = omega arith;
  filename_range = omega arith;
  file_path_range = omega arith;
  file_size_range = omega arith;
  created_at_range = omega arith;
  modified_at_range = omega arith;
  hashes_range = omega arith;
  each_hash_range = (omega arith, tt);
  chunk_size_range = omega arith;
  file_type_range = omega arith;
  description_range = omega arith;
}

deserialize-serialize_metadata_example :
    deserialize (serialize small_file ++ 7 ∷ []) ≡ ok (written small_file)
deserialize-serialize_metadata_example =
    deserialize-serialize_metadata small_file (7 ∷ []) small_file-IsValid

abbrev rest_of_file : Bytes
rest_of_file =
    write_string []
    ++ (write_string (b'f' ∷ [])
        ++ (write_string []
            ++ (write_uint64 5
                ++ (write_uint64 1
                    ++ (write_uint64 2
                        ++ (write_size 1
                            ++ (write_all write_string ((b'0' ∷ b'a' ∷ []) ∷ [])
                                ++ (write_uint32 4
                                    ++ (write_size 1
                                        ++ (write_string [] ++ write_string []))))))))))

cut_small_file : serialize small_file ≡ (1 ∷ 0 ∷ 0 ∷ 0 ∷ []) ++ b'f' ∷ rest_of_file
unfolding serialize write_string write_size write_uint32 write_bytes
cut_small_file = refl
