-- ===== src/Router/Queries/Once.antt =====
-- A query is processed once in its window: `handle_file_query` of src/network/peer_router.cpp, with
-- whatever else the router does in between.
use hyper_share.Prelude.{
  ℕ, ◌+◌, ◌-◌, ◌<◌, ◌≤◌, ◌≡◌, refl, Bool, true, false, List, [], ◌∷◌, some, inl, inr, Bool-cases,
  arith, ltb, All, ◌==◌, All,
}
use hyper_share.Wire.{Bytes}
use hyper_share.Maps.{nat_eq, bytes_eq, Map, find, insert, erase_if, find-insert}
use hyper_share.Router.Double.{Double}
use hyper_share.Router.FileQuery.{FileQueryMessage}
use hyper_share.Router.Files.{Router, remove_file, announce_file, is_empty, or_empty}
use hyper_share.Router.Queries.{
  handle_file_query, find_file, is_recent, calculate_crc32, query_string,
}
use hyper_share.Router.Rounds.{cleanup_expired_entries}

-- A call of the router, with what random numbers and the library decide.
pub data Call : Type 0 where
  query : (shuffle : List ℕ → List ℕ) (message : FileQueryMessage) → Call
  search_for : (to_string : ℕ → Bytes) (file_id : Bytes) (search_terms : List Bytes) → Call
  announce : (file_id file_hash : Bytes) (file_size : ℕ) → Call
  remove : (file_id : Bytes) → Call
  cleanup : Call

-- The query was seen at some time from `since` on.
abbrev IsSeen : (since query_id : ℕ) → Map ℕ ℕ → Type 0
IsSeen since query_id cache = (seen : ℕ) × (find query_id cache ≡ some seen) × (since ≤ seen)

insert-IsSeen :
    (since now k i : ℕ) (m : Map ℕ ℕ)
    → since ≤ now
    → IsSeen since k m
    → IsSeen since k (insert i now m)
insert-IsSeen since now k i m after (seen, known, late) = elim (Bool-cases (i == k)) [
  | inl same ↦ (now, ground (arith, find-insert i k now m, same), after)
  | inr other ↦ (seen, ground (arith, find-insert i k now m, other, known), late)
]

find-erase_if_kept :
    (p : ℕ → Bool) (k seen : ℕ) (m : Map ℕ ℕ)
    → find k m ≡ some seen
    → p seen ≡ false
    → find k (erase_if p m) ≡ some seen
unfolding find erase_if
find-erase_if_kept p k seen [] h kept = cc
find-erase_if_kept p k seen ((i, v) ∷ m) h kept = ground (arith, find-erase_if_kept p k seen m)

module _ {F : Type 0} ⦃d : Double F⦄ where
  unfoldable pub call : (now : ℕ) → Call → Router F → Router F
  call now (query shuffle message) r = (handle_file_query shuffle now message r).0
  call now (search_for to_string file_id search_terms) r =
      (find_file to_string now file_id search_terms r).0
  call now (announce file_id file_hash file_size) r =
      (announce_file now file_id file_hash file_size r).0
  call now (remove file_id) r = remove_file file_id r
  call now cleanup r = cleanup_expired_entries now r

  unfoldable pub call_all : List (ℕ × Call) → Router F → Router F
  call_all [] r = r
  call_all ((now, c) ∷ rest) r = call_all rest (call now c r)

  handle_file_query-IsSeen :
      (since now k : ℕ) (shuffle : List ℕ → List ℕ) (message : FileQueryMessage) (r : Router F)
      → since ≤ now
      → IsSeen since k r.query_cache
      → IsSeen since k (handle_file_query shuffle now message r).0.query_cache
  unfolding handle_file_query
  handle_file_query-IsSeen since now k shuffle message r after s =
      elim (Bool-cases (is_recent now (find message.query_id r.query_cache))) [
        | inl recent ↦ rw recent s
        | inr old ↦ rw old (insert-IsSeen since now k message.query_id r.query_cache after s)
      ]

  find_file-IsSeen :
      (since now k : ℕ) (to_string : ℕ → Bytes) (file_id : Bytes) (search_terms : List Bytes)
      (r : Router F)
      → since ≤ now
      → IsSeen since k r.query_cache
      → IsSeen since k (find_file to_string now file_id search_terms r).0.query_cache
  unfolding find_file
  find_file-IsSeen since now k to_string file_id search_terms r after s =
      let hash = calculate_crc32 (query_string file_id search_terms) in
      elim (Bool-cases (is_empty (or_empty (find file_id r.file_locations)))) [
        | inl missing ↦ rw missing (insert-IsSeen since now k hash r.query_cache after s)
        | inr cached ↦ rw cached s
      ]

  call-IsSeen :
      (since now k : ℕ) (c : Call) (r : Router F)
      → since ≤ now
      → now < since + 60000000000
      → IsSeen since k r.query_cache
      → IsSeen since k (call now c r).query_cache
  unfolding call announce_file remove_file cleanup_expired_entries
  call-IsSeen since now k (query shuffle message) r after before s =
      handle_file_query-IsSeen since now k shuffle message r after s
  call-IsSeen since now k (search_for to_string file_id search_terms) r after before s =
      find_file-IsSeen since now k to_string file_id search_terms r after s
  call-IsSeen since now k (announce file_id file_hash file_size) r after before s = s
  call-IsSeen since now k (remove file_id) r after before s = s
  call-IsSeen since now k cleanup r after before (seen, known, late) = (
    seen,
    find-erase_if_kept (λ x. ltb 300000000000 (now - x)) k seen r.query_cache known (ground arith),
    late,
  )

  call_all-IsSeen :
      (since k : ℕ) (calls : List (ℕ × Call)) (r : Router F)
      → All (λ c. (since ≤ c.0) × (c.0 < since + 60000000000)) calls
      → IsSeen since k r.query_cache
      → IsSeen since k (call_all calls r).query_cache
  unfolding call_all
  call_all-IsSeen since k [] r h s = s
  call_all-IsSeen since k ((now, c) ∷ rest) r ((after, before), h) s =
      call_all-IsSeen since k rest (call now c r) h (call-IsSeen since now k c r after before s)

  -- A query is processed at most once in a minute. Suppose that a query which the router has not seen
  -- within the last minute is handled at the time `first`, and that only calls of the router's
  -- operations within a minute from then follow: then a query with the same number that comes within
  -- that minute sends nothing and changes nothing.
  pub handle_file_query-call_all :
      (shuffle shuffle' : List ℕ → List ℕ) (first again : ℕ) (message message' : FileQueryMessage)
      (calls : List (ℕ × Call)) (r : Router F)
      → is_recent first (find message.query_id r.query_cache) ≡ false
      → message'.query_id ≡ message.query_id
      → All (λ c. (first ≤ c.0) × (c.0 < first + 60000000000)) calls
      → again < first + 60000000000
      → (let r' = call_all calls (handle_file_query shuffle first message r).0 in
          handle_file_query shuffle' again message' r' ≡ (r', []))
  unfolding handle_file_query
  handle_file_query-call_all shuffle shuffle' first again message message' calls r new same between
        soon =
      let cache = insert message.query_id first r.query_cache in
      let r1 = record r { query_cache = cache } in
      let (seen, known, late) = call_all-IsSeen first message.query_id calls r1 between (
        first,
        ground (arith, find-insert message.query_id message.query_id first r.query_cache),
        omega arith,
      ) in
      let recent : ltb (again - seen) 60000000000 ≡ true = ground arith in
      rw (new, same, known, recent) refl
