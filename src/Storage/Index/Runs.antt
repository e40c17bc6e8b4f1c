-- ===== src/Storage/Index/Runs.antt =====
-- Runs of a file index over tables that are association lists.
use hyper_share.Prelude.{
  some_injective, ℕ, ◌≡◌, refl, sym, ap, ◌∙◌, ◌||◌, List, [], ◌∷◌, some, ◌==◌, if◌then◌else◌, arith,
}
use mathlib.Core.Option
use hyper_share.Maps.{
  Map, ◌=?◌, bytes_eq, bytes_beq, bytes_beq_self, find, insert, erase, find-insert,
}
use hyper_share.Wire.{Bytes, ok}
use hyper_share.Storage.Metadata.{FileMetadata}
use hyper_share.Storage.Metadata.Codec.{IsValid, written}
use hyper_share.Storage.Index.{
  Database, IsDatabase, is_listed, add_file, get_file, update_chunk_progress, get_missing_chunks,
  c_str, done,
}
use hyper_share.Storage.Index.Chunks.{without, get_missing_chunks-update_chunk_progress}
use hyper_share.Storage.Index.Contents.{get_file-add_file}

abbrev Tables : Type 0
Tables = Map Bytes Bytes × List (Bytes × ℕ)

unfoldable rows_of : Bytes → List (Bytes × ℕ) → List ℕ
rows_of h [] = []
rows_of h ((g, i) ∷ rows) = let rest = rows_of h rows in if g =? h then i ∷ rest else rest

abbrev tables : Database Tables
tables = record {
  replace_file = λ h m blob s. some (insert h blob s.0, s.1);
  replace_chunk = λ h i c s. some (s.0, (h, i) ∷ s.1);
  delete_file = λ h s. some (erase h s.0, s.1);
  select_blob = λ h s. find h s.0;
  list_blobs = λ s. [];
  search_blobs = λ p s. [];
  available_chunks = λ h s. some (rows_of h s.1);
}

is_listed-rows_of :
    (h : Bytes) (i : ℕ) (rows : List (Bytes × ℕ)) (n : ℕ)
    → is_listed n (rows_of h ((h, i) ∷ rows)) ≡ (i == n || is_listed n (rows_of h rows))
unfolding rows_of is_listed
is_listed-rows_of h i rows n = rw (bytes_beq_self h) refl

tables-IsDatabase : IsDatabase tables
tables-IsDatabase = record {
  select_blob-replace_file = λ h m blob s s' j e.
      ap (λ (t : Tables). find j t.0) (sym (some_injective e)) ∙ find-insert h j blob s.0;
  select_blob-replace_chunk =
      λ h i c s s' j e. ap (λ (t : Tables). find j t.0) (sym (some_injective e));
  available_chunks-replace_chunk = λ h i c s s' rows e old. (
    rows_of h ((h, i) ∷ s.1),
    (
      ap (λ (t : Tables). some (rows_of h t.1)) (sym (some_injective e)),
      λ n. is_listed-rows_of h i s.1 n ∙ ap (λ r. i == n || is_listed n r) (some_injective old),
    ),
  );
}

abbrev small_file : FileMetadata
small_file = record {
  file_id = b'f' ∷ [];
  file_hash = b'h' ∷ [];
  filename = b'f' ∷ [];
  file_path = [];
  file_size = 5;
  created_at = 1;
  modified_at = 2;
  chunk_hashes = (b'0' ∷ b'a' ∷ []) ∷ [];
  chunk_size = 4;
  chunk_count = 2;
  file_type = [];
  description = [];
  tags = [];
}

small_file-IsValid : IsValid small_file
small_file-IsValid = record {
  file_id_range = omega arith;
  file_hash_range = omega arith;
  filename_range = omega arith;
  file_path_range = omega arith;
  file_size_range = omega arith;
  created_at_range = omega arith;
  modified_at_range = omega arith;
  hashes_range = omega arith;
  each_hash_range = (omega arith, tt);
  chunk_size_range = omega arith;
  file_type_range = omega arith;
  description_range = omega arith;
}

get_file-add_file_example :
    get_file tables (b'h' ∷ []) (add_file tables small_file ([], [])).0
    ≡ some (ok (written small_file))
unfolding add_file c_str bytes_beq
get_file-add_file_example =
    get_file-add_file tables tables-IsDatabase small_file ([], []) (b'h' ∷ []) small_file-IsValid
      refl

-- The first chunk is stored with the file, and then the second one comes.
abbrev with_file : Tables
with_file = (add_file tables small_file ([], [])).0

get_missing_chunks-update_chunk_progress_example :
    get_missing_chunks tables
      (b'h' ∷ [])
      (update_chunk_progress tables (b'h' ∷ []) 1 (b'1' ∷ []) with_file).0
    ≡ Option.map (without 1) (get_missing_chunks tables (b'h' ∷ []) with_file)
unfolding update_chunk_progress done
get_missing_chunks-update_chunk_progress_example =
    get_missing_chunks-update_chunk_progress tables tables-IsDatabase (b'h' ∷ []) 1 (b'1' ∷ [])
      with_file (rows_of (c_str (b'h' ∷ [])) with_file.1) refl refl
