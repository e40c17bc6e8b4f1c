-- ===== src/Router/Files/Locations.antt =====
-- What the router of src/network/peer_router.cpp knows of a file's locations after a response to a
-- query and after a removal.
use hyper_share.Prelude.{
  ◌≤◌, ◌≡◌, ◌≢◌, refl, Bool, true, false, List, [], ◌∷◌, ◌++◌, Option, none, some, inl, inr, ◌⊎◌,
  Bool-cases, arith, All, length, max,
}
use mathlib.Core.List.{Memᴰ}
use hyper_share.Wire.{Bytes}
use hyper_share.Maps.{
  nat_eq, bytes_eq, bytes_beq, bytes_beq_iff, bytes_beq_self, Map, find, insert, find-insert,
  find-erase,
}
use hyper_share.Router.FileQueryResponse.{FileLocation}
use hyper_share.Router.Table.{PeerRouter}
use hyper_share.Router.Files.{
  Router, has_location, add_location, or_empty, remove_file, without_local, remove_if, copy_if,
  is_empty, is_local,
}

copy_if-remove_if : {A : Type 0} (p : A → Bool) (xs : List A) → copy_if p (remove_if p xs) ≡ []
unfolding copy_if remove_if
copy_if-remove_if p [] = refl
copy_if-remove_if p (x ∷ xs) = ground (arith, copy_if-remove_if p xs)

module _ {F : Type 0} where
  -- The locations that are stored for a file.
  abbrev pub locations_of : Bytes → Map Bytes (List (FileLocation F)) → List (FileLocation F)
  locations_of file_id all = or_empty (find file_id all)

  -- A location of the file `k` that was reported, with all its fields.
  abbrev pub IsReported : Bytes → List (FileLocation F) → FileLocation F → Type 0
  IsReported k reported l = (l.file_id ≡ k) × Memᴰ l reported

  -- What was stored for the file `k` still is, unchanged and in front; behind it stand locations that
  -- were reported, and nothing is stored beyond 50000.
  pub record Grows (k : Bytes) (reported xs ys : List (FileLocation F)) : Type 0 where
    pub extra : List (FileLocation F)
    pub appended : ys ≡ xs ++ extra
    pub each_reported : All (IsReported k reported) extra
    pub room : length ys ≤ max 50000 (length xs)

  -- A location with its peer and hash is stored, or there is no room.
  abbrev pub IsHeld : FileLocation F → List (FileLocation F) → Type 0
  IsHeld l ys = (has_location l ys ≡ true) ⊎ (50000 ≤ length ys)

  -- One location more in the map.
  abbrev added :
      FileLocation F → Map Bytes (List (FileLocation F)) → Map Bytes (List (FileLocation F))
  added l all = insert l.file_id (add_location l (locations_of l.file_id all)) all

  locations_of-without_local :
      (table : PeerRouter F) (file_id : Bytes) (all : Map Bytes (List (FileLocation F)))
      (stored : Option (List (FileLocation F)))
      → find file_id all ≡ stored
      → copy_if (is_local table) (locations_of file_id (without_local table file_id all stored))
        ≡ []
  unfolding copy_if remove_if
  locations_of-without_local table file_id all none e = rw e refl
  locations_of-without_local table file_id all (some locations) e =
      let rest = remove_if (is_local table) locations in
      let same = bytes_beq_self file_id in
      elim (Bool-cases (is_empty rest)) [
        | inl gone ↦ rw (gone, find-erase file_id file_id all, same) refl
        | inr left ↦
            rw (left, find-insert file_id file_id rest all, same)
              (copy_if-remove_if (is_local table) locations)
      ]

  locations_of-without_local_other :
      (table : PeerRouter F) (file_id k : Bytes) (all : Map Bytes (List (FileLocation F)))
      (stored : Option (List (FileLocation F)))
      → k ≢ file_id
      → locations_of k (without_local table file_id all stored) ≡ locations_of k all
  locations_of-without_local_other table file_id k all none ne = refl
  locations_of-without_local_other table file_id k all (some locations) ne =
      let rest = remove_if (is_local table) locations in
      let other : bytes_beq file_id k ≡ false = ground (arith, bytes_beq_iff file_id k, ne) in
      elim (Bool-cases (is_empty rest)) [
        | inl gone ↦ rw (gone, find-erase file_id k all, other) refl
        | inr left ↦ rw (left, find-insert file_id k rest all, other) refl
      ]

  -- After a removal of a file, the router stores no location of its own for it, and for every other
  -- file the locations that it stored.
  pub locations_of-remove_file :
      (file_id k : Bytes) (r : Router F)
      → k ≢ file_id
      → (copy_if (is_local r.table) (locations_of file_id (remove_file file_id r).file_locations)
          ≡ [])
        × (locations_of k (remove_file file_id r).file_locations ≡ locations_of k r.file_locations)
  unfolding remove_file
  locations_of-remove_file file_id k r ne = (
    locations_of-without_local r.table file_id r.file_locations _ refl,
    locations_of-without_local_other r.table file_id k r.file_locations _ ne,
  )
