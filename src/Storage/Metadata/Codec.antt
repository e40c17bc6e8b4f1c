-- ===== src/Storage/Metadata/Codec.antt =====
-- `FileMetadata::serialize` and `FileMetadata::deserialize` of src/storage/file_metadata.cpp. The
-- source reads with no test of the length: where the bytes end too early, which is undefined there,
-- the reader here ends in an error.
use hyper_share.Prelude.{ℕ, ◌^◌, ◌<◌, ◌≡◌, [], ◌∷◌, ◌++◌, length, All}
use hyper_share.Wire.{
  Bytes, Error, Reader, Result, ok, err, run, ◌>>=◌, return, read_count, write_all,
}
use hyper_share.Wire.Laws.{Reads, run-Reads}
use hyper_share.Wire.Prefix.{Extends, err_of_prefix}
use hyper_share.Wire.Little.{
  write_uint32, write_uint64, write_size, write_string, read_uint32, read_uint64, read_string,
  little_fields, little_prefixes,
}
use hyper_share.Storage.Metadata.{FileMetadata}

-- The local `chunk_count`, the number of the hashes, hides the member of this name.
unfoldable pub serialize : FileMetadata → Bytes
serialize m =
    write_string m.file_id
    ++ (write_string m.file_hash
        ++ (write_string m.filename
            ++ (write_string m.file_path
                ++ (write_uint64 m.file_size
                    ++ (write_uint64 m.created_at
                        ++ (write_uint64 m.modified_at
                            ++ (write_size (length m.chunk_hashes)
                                ++ (write_all write_string m.chunk_hashes
                                    ++ (write_uint32 m.chunk_size
                                        ++ (write_size (length m.chunk_hashes)
                                            ++ (write_string m.file_type
                                                ++ write_string m.description)))))))))))

unfoldable pub read : Reader FileMetadata
read = do
  file_id ← read_string
  file_hash ← read_string
  filename ← read_string
  file_path ← read_string
  file_size ← read_uint64
  created_at ← read_uint64
  modified_at ← read_uint64
  count ← read_uint32
  chunk_hashes ← read_count count read_string
  chunk_size ← read_uint32
  chunk_count ← read_uint32
  file_type ← read_string
  description ← read_string
  return (record {
    file_id = file_id;
    file_hash = file_hash;
    filename = filename;
    file_path = file_path;
    file_size = file_size;
    created_at = created_at;
    modified_at = modified_at;
    chunk_hashes = chunk_hashes;
    chunk_size = chunk_size;
    chunk_count = chunk_count;
    file_type = file_type;
    description = description;
    tags = [];
  })

unfoldable pub deserialize : Bytes → Result FileMetadata
deserialize buffer = run read buffer

-- The ranges of the fields' C++ types.
pub record IsValid (m : FileMetadata) : Type 0 where
  pub file_id_range : length m.file_id < 2 ^ 32
  pub file_hash_range : length m.file_hash < 2 ^ 32
  pub filename_range : length m.filename < 2 ^ 32
  pub file_path_range : length m.file_path < 2 ^ 32
  pub file_size_range : m.file_size < 2 ^ 64
  pub created_at_range : m.created_at < 2 ^ 64
  pub modified_at_range : m.modified_at < 2 ^ 64
  pub hashes_range : length m.chunk_hashes < 2 ^ 32
  pub each_hash_range : All (λ (x : Bytes). length x < 2 ^ 32) m.chunk_hashes
  pub chunk_size_range : m.chunk_size < 2 ^ 32
  pub file_type_range : length m.file_type < 2 ^ 32
  pub description_range : length m.description < 2 ^ 32

-- What is left of the metadata after a round trip.
abbrev pub written : FileMetadata → FileMetadata
written m = record m { chunk_count = length m.chunk_hashes; tags = [] }

read-serialize : (m : FileMetadata) → IsValid m → Reads read (serialize m) (written m)
unfolding read serialize
read-serialize m v = search little_fields depth 26 fits 3000

read-Extends : Extends read
unfolding read
read-Extends = search little_prefixes depth 20 fits 3000

-- What `serialize` writes, `deserialize` takes back, but for two members: the chunk count comes back
-- as the number of the hashes, and the tags come back empty. Bytes behind are ignored.
pub deserialize-serialize_metadata :
    (m : FileMetadata) (rest : Bytes)
    → IsValid m
    → deserialize (serialize m ++ rest) ≡ ok (written m)
unfolding deserialize
deserialize-serialize_metadata m rest v = run-Reads (read-serialize m v) rest

-- On any proper prefix of what `serialize` writes, `deserialize` reads past the end.
pub deserialize_prefix_metadata :
    (m : FileMetadata) (front back : Bytes) (x : ℕ)
    → IsValid m
    → serialize m ≡ front ++ x ∷ back
    → (e : Error) × (deserialize front ≡ err e)
unfolding deserialize
deserialize_prefix_metadata m front back x v h =
    err_of_prefix read-Extends (read-serialize m v) front back x h
