-- ===== src/Storage/Metadata.antt =====
-- `FileMetadata` of src/storage/file_metadata.cpp. A time point is its 64-bit count.
pub mod Layout
pub mod Codec
use hyper_share.Prelude.{
  ℕ, ◌+◌, ◌-◌, ◌/◌, ◌%◌, ◌^◌, Bool, false, List, ◌∷◌, [], ◌++◌, length, ltb, ◌==◌, if◌then◌else◌,
  Option, none, some,
}
use mathlib.Core.Option
use hyper_share.Wire.{Bytes}

pub record FileMetadata : Type 0 where
  pub file_id : Bytes
  pub file_hash : Bytes
  pub filename : Bytes
  pub file_path : Bytes
  pub file_size : ℕ
  pub created_at : ℕ
  pub modified_at : ℕ
  pub chunk_hashes : List Bytes
  pub chunk_size : ℕ
  pub chunk_count : ℕ
  pub file_type : Bytes
  pub description : Bytes
  pub tags : List Bytes

-- `(file_size + chunk_size - 1) / chunk_size` in 64 bits. A chunk size of zero is a division by zero.
unfoldable pub total_chunks : FileMetadata → Option ℕ
total_chunks m =
    if m.chunk_size == 0
    then none
    else some ((m.file_size + m.chunk_size + 2 ^ 64 - 1) % 2 ^ 64 / m.chunk_size)

unfoldable pub is_complete : FileMetadata → Option Bool
unfolding total_chunks
is_complete m = elim m.chunk_hashes [
  | [] ↦ some false
  | h ∷ hs ↦ Option.map (λ n. length (h ∷ hs) == n) (total_chunks m)
]

unfoldable pub add_chunk_hash : Bytes → FileMetadata → FileMetadata
add_chunk_hash hash m = record m { chunk_hashes = m.chunk_hashes ++ (hash ∷ []) }

-- `chunk_count - 1` is a 32-bit subtraction, which wraps for a file of no chunk.
abbrev pub last_index : FileMetadata → ℕ
last_index m = (m.chunk_count + 2 ^ 32 - 1) % 2 ^ 32

-- `none` is a division by zero.
unfoldable pub get_chunk_size : FileMetadata → ℕ → Option ℕ
get_chunk_size m chunk_index =
    if ltb chunk_index (last_index m)
    then some m.chunk_size
    else if chunk_index == last_index m
    then (if m.chunk_size == 0
        then none
        else (let last_chunk_size = m.file_size % m.chunk_size in
            some (if last_chunk_size == 0 then m.chunk_size else last_chunk_size)))
    else some 0
