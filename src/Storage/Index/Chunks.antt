-- ===== src/Storage/Index/Chunks.antt =====
-- The chunks that the file index reports as missing.
use hyper_share.Prelude.{
  ℕ, zero, suc, ◌+◌, ◌≤◌, ◌<◌, ◌≡◌, refl, sym, ap, ◌∙◌, Bool, true, false, ◌||◌, List, [], ◌∷◌,
  Option, none, some, ltb, ◌==◌, if◌then◌else◌, set, get_or, replicate, length, length-set,
  length-replicate, arith, Bool-cases, inl, inr,
}
use mathlib.Core.Option
use hyper_share.Wire.{Bytes, Result, ok, err}
use hyper_share.Storage.Metadata.{FileMetadata, total_chunks}
use hyper_share.Storage.Metadata.Codec.{deserialize}
use hyper_share.Storage.Index.{
  missing_in, done, Database, IsDatabase, c_str, is_listed, mark, find_missing, missing_of,
  get_file, update_chunk_progress, get_missing_chunks,
}

-- A list without a number.
abbrev pub without : ℕ → List ℕ → List ℕ
without k [] = []
without k (x ∷ xs) = let rest = without k xs in if k == x then rest else x ∷ rest

-- The numbers from `i` on, `count` of them, that are not listed.
unlisted : (count i : ℕ) → List ℕ → List ℕ
unlisted zero i rows = []
unlisted (suc count) i rows =
    let rest = unlisted count (suc i) rows in if is_listed i rows then rest else i ∷ rest

get_or-set :
    (xs : List Bool) (i j : ℕ)
    → j < length xs
    → get_or (set xs i true) j false ≡ (i == j || get_or xs j false)
get_or-set [] i j h = absurd (omega arith)
get_or-set (x ∷ xs) zero zero h = refl
get_or-set (x ∷ xs) zero (suc j) h = ground arith
get_or-set (x ∷ xs) (suc i) zero h = ground arith
get_or-set (x ∷ xs) (suc i) (suc j) h = ground (arith, get_or-set xs i j (omega arith))

get_or-replicate : (n j : ℕ) → get_or (replicate n false) j false ≡ false
get_or-replicate zero j = refl
get_or-replicate (suc n) zero = refl
get_or-replicate (suc n) (suc j) = get_or-replicate n j

get_or-mark :
    (total : ℕ) (rows : List ℕ) (available : List Bool) (j : ℕ)
    → length available ≡ total
    → j < total
    → get_or (mark total rows available) j false ≡ (is_listed j rows || get_or available j false)
unfolding mark is_listed
get_or-mark total [] available j e h = refl
get_or-mark total (i ∷ rows) available j e h = elim (Bool-cases (ltb i total)) [
  | inl inside ↦ rw inside (
      ground (
        arith,
        get_or-mark total rows (set available i true) j (length-set available i true ∙ e) h,
        get_or-set available i j (omega arith),
      ))
  | inr outside ↦ rw outside (ground (arith, get_or-mark total rows available j e h))
]

find_missing-mark :
    (total : ℕ) (rows : List ℕ) (count i : ℕ)
    → count + i ≤ total
    → find_missing count i (mark total rows (replicate total false)) ≡ unlisted count i rows
unfolding find_missing unlisted
find_missing-mark total rows zero i h = refl
find_missing-mark total rows (suc count) i h =
    let marked =
      get_or-mark total rows (replicate total false) i (length-replicate total false)
        (omega arith) in
    ground (
      arith,
      marked,
      get_or-replicate total i,
      find_missing-mark total rows count (suc i) (omega arith),
    )

unlisted-without :
    (k : ℕ) (rows rows' : List ℕ) (count i : ℕ)
    → ((n : ℕ) → is_listed n rows' ≡ (k == n || is_listed n rows))
    → unlisted count i rows' ≡ without k (unlisted count i rows)
unfolding unlisted
unlisted-without k rows rows' zero i h = refl
unlisted-without k rows rows' (suc count) i h =
    ground (arith, h i, unlisted-without k rows rows' count (suc i) h)

pub done_lem :
    {S : Type 0} (s : S) (o : Option S)
    → (done s o).1 ≡ true
    → (s' : S) × ((o ≡ some s') × ((done s o).0 ≡ s'))
unfolding done
done_lem s none h = cc
done_lem s (some s') h = (s', (refl, refl))

missing_of-without :
    (k total : ℕ) (rows rows' : List ℕ)
    → ((n : ℕ) → is_listed n rows' ≡ (k == n || is_listed n rows))
    → missing_of total (some rows') ≡ without k (missing_of total (some rows))
unfolding missing_of
missing_of-without k total rows rows' h =
    find_missing-mark total rows' total 0 (omega arith)
    ∙ unlisted-without k rows rows' total 0 h
    ∙ sym (ap (without k) (find_missing-mark total rows total 0 (omega arith)))

missing_in-without :
    (k : ℕ) (file : Option (Result FileMetadata)) (rows rows' : List ℕ)
    → ((n : ℕ) → is_listed n rows' ≡ (k == n || is_listed n rows))
    → missing_in file (some rows') ≡ Option.map (without k) (missing_in file (some rows))
unfolding missing_in
missing_in-without k none rows rows' h = refl
missing_in-without k (some (err e)) rows rows' h = refl
missing_in-without k (some (ok m)) rows rows' h =
    elim (total_chunks m)
      as (λ t.
        Option.map (λ n. missing_of n (some rows')) t
        ≡ Option.map (without k) (Option.map (λ n. missing_of n (some rows)) t)) [
          | none ↦ refl
          | some total ↦ ap some (missing_of-without k total rows rows' h)
        ]

module _ {S : Type 0} (db : Database S) (laws : IsDatabase db) where
  -- When SQLite takes the progress of a chunk, the missing chunks of the file are those of before but
  -- for that chunk, if the rows of its chunks could be read before, and SQLite keeps its documentation.
  pub get_missing_chunks-update_chunk_progress :
      (file_hash : Bytes) (chunk_index : ℕ) (chunk_hash : Bytes) (s : S) (rows : List ℕ)
      → db.available_chunks (c_str file_hash) s ≡ some rows
      → (update_chunk_progress db file_hash chunk_index chunk_hash s).1 ≡ true
      → get_missing_chunks db file_hash
          (update_chunk_progress db file_hash chunk_index chunk_hash s).0
        ≡ Option.map (without chunk_index) (get_missing_chunks db file_hash s)
  unfolding update_chunk_progress get_file get_missing_chunks
  get_missing_chunks-update_chunk_progress file_hash k c s rows old success =
      let (s', (stepped, result)) =
        done_lem s (db.replace_chunk (c_str file_hash) k (c_str c) s) success in
      let (rows', (new, listed)) =
        laws.available_chunks-replace_chunk (c_str file_hash) k (c_str c) s s' rows stepped old in
      let blob =
        laws.select_blob-replace_chunk (c_str file_hash) k (c_str c) s s' (c_str file_hash)
          stepped in
      let same : get_file db file_hash s' ≡ get_file db file_hash s =
        ap (Option.map deserialize) blob in
      ap (get_missing_chunks db file_hash) result
      ∙ ap (λ f. missing_in f (db.available_chunks (c_str file_hash) s')) same
      ∙ ap (missing_in (get_file db file_hash s)) new
      ∙ missing_in-without k (get_file db file_hash s) rows rows' listed
      ∙ ap (λ r. Option.map (without k) (missing_in (get_file db file_hash s) r)) (sym old)
