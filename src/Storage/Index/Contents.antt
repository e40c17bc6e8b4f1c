-- ===== src/Storage/Index/Contents.antt =====
-- The metadata in the file index.
use hyper_share.Prelude.{
  Option-cases, ℕ, suc, ◌≡◌, refl, ap, ◌∙◌, true, false, List, [], ◌∷◌, Option, some, if◌then◌else◌,
  map, append-nil, Bool-cases, inl, inr,
}
use mathlib.Core.Option
use hyper_share.Maps.{◌=?◌, bytes_eq}
use hyper_share.Wire.{Bytes, ok}
use hyper_share.Storage.Metadata.{FileMetadata}
use hyper_share.Storage.Metadata.Codec.{
  IsValid, serialize, deserialize, written, deserialize-serialize_metadata,
}
use hyper_share.Storage.Index.{Database, IsDatabase, c_str, add_chunks, add_file, get_file}

read_back :
    (m : FileMetadata) (h j : Bytes) (o : Option Bytes)
    → IsValid m
    → Option.map deserialize (if h =? j then some (serialize m) else o)
      ≡ (if h =? j then some (ok (written m)) else Option.map deserialize o)
read_back m h j o v =
    let padded = deserialize-serialize_metadata m [] v in
    let whole : deserialize (serialize m) ≡ ok (written m) = rw append-nil at padded in
    elim (Bool-cases (h =? j)) [ inl same ↦ rw (same, whole) refl | inr other ↦ rw other refl ]

module _ {S : Type 0} (db : Database S) (laws : IsDatabase db) where
  -- The rows of chunks hold no metadata.
  select_blob-add_chunks :
      (h : Bytes) (i : ℕ) (hashes : List Bytes) (s : S) (j : Bytes)
      → db.select_blob j (add_chunks db h i hashes s) ≡ db.select_blob j s
  unfolding add_chunks
  select_blob-add_chunks h i [] s j = refl
  select_blob-add_chunks h i (c ∷ hashes) s j = elim (Option-cases (db.replace_chunk h i c s)) [
    | inl fails ↦ rw (add_chunks, fails) (select_blob-add_chunks h (suc i) hashes s j)
    | inr (s', e) ↦
        rw (add_chunks, e)
          (select_blob-add_chunks h (suc i) hashes s' j
            ∙ laws.select_blob-replace_chunk h i c s s' j e)
  ]

  -- The metadata that were added are found as their format carries them, and those of other files as
  -- before, if the fields are in the ranges of their types and SQLite keeps its documentation.
  pub get_file-add_file :
      (m : FileMetadata) (s : S) (file_hash : Bytes)
      → IsValid m
      → (add_file db m s).1 ≡ true
      → get_file db file_hash (add_file db m s).0 ≡ (
          if c_str m.file_hash =? c_str file_hash
          then some (ok (written m))
          else get_file db file_hash s)
  unfolding add_file get_file
  get_file-add_file m s file_hash v success =
      let key = c_str m.file_hash in
      elim (Option-cases (db.replace_file key m (serialize m) s)) [
        | inl fails ↦ let failure : (add_file db m s).1 ≡ false = rw (add_file, fails) refl in cc
        | inr (s', e) ↦
            let state : (add_file db m s).0 ≡ add_chunks db key 0 (map c_str m.chunk_hashes) s' =
              rw (add_file, e) refl in
            let blob =
              ap (db.select_blob (c_str file_hash)) state
              ∙ select_blob-add_chunks key 0 (map c_str m.chunk_hashes) s' (c_str file_hash)
              ∙ laws.select_blob-replace_file key m (serialize m) s s' (c_str file_hash) e in
            ap (Option.map deserialize) blob
            ∙ read_back m key (c_str file_hash) (db.select_blob (c_str file_hash) s) v
      ]
