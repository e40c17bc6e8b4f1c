-- ===== src/Storage/Index.antt =====
-- `FileIndex` of src/storage/file_index.cpp. The tables of SQLite are the state; the statements that
-- the class prepares and steps are an interface, `none` where one does not end in SQLITE_DONE.
pub mod Chunks
pub mod Contents
mod Runs
use hyper_share.Prelude.{
  ℕ, zero, suc, ◌+◌, ◌≡◌, Bool, true, false, ◌&&◌, ◌||◌, List, [], ◌∷◌, ◌++◌, Option, none, some,
  map, ltb, ◌==◌, if◌then◌else◌, set, get_or, replicate,
}
use mathlib.Core.Option
use hyper_share.Maps.{◌=?◌, bytes_eq}
use hyper_share.Wire.{Bytes, Result, ok, err}
use hyper_share.Storage.Metadata.{FileMetadata, total_chunks}
use hyper_share.Storage.Metadata.Codec.{serialize, deserialize}

pub record Database (S : Type 0) : Type 0 where
  -- INSERT OR REPLACE INTO files, with the columns of the metadata and their serialization.
  pub replace_file : (file_hash : Bytes) → FileMetadata → (metadata_blob : Bytes) → S → Option S
  -- INSERT OR REPLACE INTO chunks ... VALUES (?, ?, ?, 1)
  pub replace_chunk : (file_hash : Bytes) → (chunk_index : ℕ) → (chunk_hash : Bytes) → S → Option S
  -- DELETE FROM files WHERE file_hash = ?
  pub delete_file : (file_hash : Bytes) → S → Option S
  -- SELECT metadata_blob FROM files WHERE file_hash = ?
  pub select_blob : (file_hash : Bytes) → S → Option Bytes
  -- SELECT metadata_blob FROM files ORDER BY created_at DESC
  pub list_blobs : S → List Bytes
  -- SELECT metadata_blob FROM files WHERE filename LIKE ? OR ...
  pub search_blobs : (search_pattern : Bytes) → S → List Bytes
  -- SELECT chunk_index FROM chunks WHERE file_hash = ? AND is_available = 1; `none` where the
  -- statement cannot be prepared.
  pub available_chunks : (file_hash : Bytes) → S → Option (List ℕ)

-- What `sqlite3_bind_text` with the length -1 takes of a string: the bytes before the first 0.
unfoldable pub c_str : Bytes → Bytes
c_str [] = []
c_str (x ∷ xs) = let rest = c_str xs in if x == 0 then [] else x ∷ rest

unfoldable pub is_listed : ℕ → List ℕ → Bool
is_listed n [] = false
is_listed n (x ∷ xs) = x == n || is_listed n xs

-- What SQLite documents of these statements.
pub record IsDatabase {S : Type 0} (db : Database S) : Type 0 where
  pub select_blob-replace_file :
      (h : Bytes) (m : FileMetadata) (blob : Bytes) (s s' : S) (j : Bytes)
      → db.replace_file h m blob s ≡ some s'
      → db.select_blob j s' ≡ (if h =? j then some blob else db.select_blob j s)
  pub select_blob-replace_chunk :
      (h : Bytes) (i : ℕ) (c : Bytes) (s s' : S) (j : Bytes)
      → db.replace_chunk h i c s ≡ some s'
      → db.select_blob j s' ≡ db.select_blob j s
  pub available_chunks-replace_chunk :
      (h : Bytes) (i : ℕ) (c : Bytes) (s s' : S) (rows : List ℕ)
      → db.replace_chunk h i c s ≡ some s'
      → db.available_chunks h s ≡ some rows
      → (rows' : List ℕ) × ((db.available_chunks h s' ≡ some rows')
          × ((n : ℕ) → is_listed n rows' ≡ (i == n || is_listed n rows)))

-- `vector[i] = true` for each index of a row that is in range.
unfoldable pub mark : (total_chunks : ℕ) → List ℕ → List Bool → List Bool
mark total [] available = available
mark total (chunk_index ∷ rows) available =
    mark total rows (if ltb chunk_index total then set available chunk_index true else available)

-- The last loop of `get_missing_chunks`, with `count` rounds left.
unfoldable pub find_missing : (count i : ℕ) → List Bool → List ℕ
find_missing zero i available = []
find_missing (suc count) i available =
    let rest = find_missing count (suc i) available in
    if get_or available i false then rest else i ∷ rest

-- What is missing of `total` chunks when the rows of a query are marked.
unfoldable pub missing_of : (total_chunks : ℕ) → Option (List ℕ) → List ℕ
missing_of total none = []
missing_of total (some rows) = find_missing total 0 (mark total rows (replicate total false))

-- What is missing of a file that is found, or not. `none` is a read past the end of the blob, or a
-- division by zero.
unfoldable pub missing_in : Option (Result FileMetadata) → Option (List ℕ) → Option (List ℕ)
missing_in none rows = some []
missing_in (some (err e)) rows = none
missing_in (some (ok metadata)) rows =
    Option.map (λ total. missing_of total rows) (total_chunks metadata)

-- `return result == SQLITE_DONE;` behind a statement.
unfoldable pub done : {S : Type 0} → S → Option S → S × Bool
done s none = (s, false)
done s (some s') = (s', true)

module _ {S : Type 0} (db : Database S) where
  open db use {
    replace_file, replace_chunk, delete_file, select_blob, list_blobs, search_blobs,
    available_chunks,
  }

  -- The chunks from `i` on. A statement that fails is passed over.
  unfoldable pub add_chunks : (file_hash : Bytes) (i : ℕ) → List Bytes → S → S
  add_chunks file_hash i [] s = s
  add_chunks file_hash i (chunk_hash ∷ hashes) s = elim (replace_chunk file_hash i chunk_hash s) [
    | none ↦ add_chunks file_hash (suc i) hashes s
    | some s' ↦ add_chunks file_hash (suc i) hashes s'
  ]

  unfoldable pub add_file : FileMetadata → S → S × Bool
  add_file metadata s =
      elim (replace_file (c_str metadata.file_hash) metadata (serialize metadata) s) [
        | none ↦ (s, false)
        | some s' ↦
            (add_chunks (c_str metadata.file_hash) 0 (map c_str metadata.chunk_hashes) s', true)
      ]

  unfoldable pub update_file : FileMetadata → S → S × Bool
  unfolding add_file
  update_file metadata s = add_file metadata s

  unfoldable pub remove_file : (file_hash : Bytes) → S → S × Bool
  remove_file file_hash s = done s (delete_file (c_str file_hash) s)

  -- An error stands for a read past the end of the blob.
  unfoldable pub get_file : (file_hash : Bytes) → S → Option (Result FileMetadata)
  get_file file_hash s = Option.map deserialize (select_blob (c_str file_hash) s)

  unfoldable pub list_files : S → List (Result FileMetadata)
  list_files s = map deserialize (list_blobs s)

  -- The pattern is the query between two `%`.
  unfoldable pub search_files : (query : Bytes) → S → List (Result FileMetadata)
  search_files query s = map deserialize (search_blobs (c_str (b'%' ∷ (query ++ (b'%' ∷ [])))) s)

  unfoldable pub update_chunk_progress :
      (file_hash : Bytes) (chunk_index : ℕ) (chunk_hash : Bytes) → S → S × Bool
  update_chunk_progress file_hash chunk_index chunk_hash s =
      done s (replace_chunk (c_str file_hash) chunk_index (c_str chunk_hash) s)

  unfoldable pub get_missing_chunks : (file_hash : Bytes) → S → Option (List ℕ)
  get_missing_chunks file_hash s =
      missing_in (get_file file_hash s) (available_chunks (c_str file_hash) s)
