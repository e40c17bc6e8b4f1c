-- ===== src/Router/Queries/Answers.antt =====
-- What `handle_file_query` of src/network/peer_router.cpp sends.
use hyper_share.Prelude.{
  ℕ, zero, suc, ◌+◌, ◌<◌, ◌≤◌, ◌≡◌, ◌≢◌, refl, ap, ==_refl, Bool, true, false, List, [], ◌∷◌, ◌++◌,
  map, none, inl, inr, Bool-cases, arith, ltb, All, ==_iff, ◌==◌, length, length-take, take, ◌%◌,
  ◌^◌,
}
use hyper_share.Wire.{Bytes}
use hyper_share.Maps.{nat_eq, bytes_eq, bytes_beq_self, Map, find, find-insert}
use hyper_share.Router.Double.{Double, one}
use hyper_share.Router.FileQuery.{FileQueryMessage}
use hyper_share.Router.FileQuery as FileQuery
use hyper_share.Router.FileQueryResponse.{FileQueryResponseMessage, FileLocation}
use hyper_share.Router.FileQueryResponse as FileQueryResponse
use hyper_share.Router.Files.{
  Send, to_peer, when, when, Router, candidates, remove_if, copy_if, or_empty, is_empty, is_local,
  get_flooding_targets, announce_file,
}
use hyper_share.Router.Queries.{handle_file_query, respond_or_forward, is_recent}

-- A direct peer other than the source.
unfoldable pub IsTarget : ℕ → Map ℕ ℕ → ℕ → Type 0
IsTarget source connections k = (k ≢ source) × (find k connections ≢ none)

-- The query goes to a direct peer other than its source, one hop further, and not beyond hop 15.
unfoldable pub IsForward : FileQueryMessage → Map ℕ ℕ → Send → Type 0
IsForward message connections send =
    (target : ℕ) × (send
      ≡ to_peer target 0x30
          (FileQuery.serialize (record message { hop_count = message.hop_count + 1 })))
    × (message.hop_count < 15)
    × IsTarget message.source_peer_id connections target

module _ {A B : Type 0} (P : A → Type 0) (Q : B → Type 0) where
  All-map : (f : A → B) → ((x : A) → P x → Q (f x)) → (xs : List A) → All P xs → All Q (map f xs)
  All-map f h [] p = tt
  All-map f h (x ∷ xs) (p, ps) = (h x p, All-map f h xs ps)

All-take : {A : Type 0} (P : A → Type 0) (n : ℕ) (xs : List A) → All P xs → All P (take n xs)
unfolding take
All-take P zero xs h = tt
All-take P (suc n) [] h = tt
All-take P (suc n) (x ∷ xs) (p, ps) = (p, All-take P n xs ps)

All-weaken :
    {A : Type 0} (P Q : A → Type 0) → ((x : A) → P x → Q x) → (xs : List A) → All P xs → All Q xs
All-weaken P Q h [] p = tt
All-weaken P Q h (x ∷ xs) (p, ps) = (h x p, All-weaken P Q h xs ps)

candidates-IsTarget : (source : ℕ) (m : Map ℕ ℕ) → All (IsTarget source m) (candidates source m)
unfolding remove_if IsTarget find
candidates-IsTarget source [] = tt
candidates-IsTarget source ((k, v) ∷ m) =
    let rest =
      All-weaken (IsTarget source m) (IsTarget source ((k, v) ∷ m))
        (λ x (ne, known). (ne, ground (arith, known))) (candidates source m)
        (candidates-IsTarget source m) in
    elim (Bool-cases (k == source)) [
      | inl same ↦ rw same rest
      | inr other ↦
          rw other ((ground (arith, other, ==_iff k source), ground (arith, ==_iff k k)), rest)
    ]

length-map : {A B : Type 0} (f : A → B) (xs : List A) → length (map f xs) ≡ length xs
length-map f [] = refl
length-map f (x ∷ xs) = omega (arith, length-map f xs)

when_sent :
    (P : Send → Type 0) (b : Bool) (sends : List Send)
    → length sends ≤ 5
    → All P sends
    → (length (when b sends) ≤ 5) × All P (when b sends)
when_sent P true sends h p = (h, p)
when_sent P false sends h p = (omega arith, tt)

module _ {F : Type 0} ⦃d : Double F⦄ (shuffle : List ℕ → List ℕ)
    (permutes : (P : ℕ → Type 0) (xs : List ℕ) → All P xs → All P (shuffle xs)) where
  targets-IsTarget :
      (source : ℕ) (r : Router F)
      → All (IsTarget source r.table.direct_connections) (get_flooding_targets shuffle source r)
  unfolding get_flooding_targets
  targets-IsTarget source r =
      All-take _ 5 _ (permutes _ _ (candidates-IsTarget source r.table.direct_connections))

  get_flooding_targets-IsForward :
      (message : FileQueryMessage) (r : Router F)
      → message.hop_count < 15
      → (sent : Bytes)
      → sent ≡ FileQuery.serialize (record message { hop_count = message.hop_count + 1 })
      → All (IsForward message r.table.direct_connections) (
          map
            (λ target. to_peer target 0x30 sent)
            (get_flooding_targets shuffle message.source_peer_id r))
  unfolding IsForward
  get_flooding_targets-IsForward message r near sent e =
      All-map (IsTarget message.source_peer_id r.table.direct_connections) _ _
        (λ target t. (target, ap (to_peer target 0x30) e, near, t))
        (get_flooding_targets shuffle message.source_peer_id r)
        (targets-IsTarget message.source_peer_id r)

  targets-length :
      (f : ℕ → Send) (source : ℕ) (r : Router F)
      → length (map f (get_flooding_targets shuffle source r)) ≤ 5
  unfolding get_flooding_targets
  targets-length f source r =
      let targets = shuffle (candidates source r.table.direct_connections) in
      omega (arith, length-map f (take 5 targets), length-take 5 targets)

  -- A router that does not have the file itself sends a query on to at most five others, each a direct peer
  -- that is not the query's source, with the hop count one higher, and to none from hop count 15 on,
  -- where `std::shuffle` only changes the order of its range.
  pub handle_file_query-IsForward :
      (now : ℕ) (message : FileQueryMessage) (r : Router F)
      → copy_if (is_local r.table) (or_empty (find message.file_id r.file_locations)) ≡ []
      → (length (handle_file_query shuffle now message r).1 ≤ 5)
        × All
            (IsForward message r.table.direct_connections)
            (handle_file_query shuffle now message r).1
  unfolding handle_file_query respond_or_forward
  handle_file_query-IsForward now message r absent =
      elim (Bool-cases (is_recent now (find message.query_id r.query_cache))) [
        | inl recent ↦ rw recent (omega arith, tt)
        | inr fresh ↦ elim (Bool-cases (ltb message.hop_count 15)) [
          | inr far ↦ rw (fresh, absent, far) (omega arith, tt)
          | inl near ↦
              let hops : (message.hop_count + 1) % 2 ^ 8 ≡ message.hop_count + 1 =
                ground (arith, near) in
              rw (fresh, absent, near)
                (when_sent _ r.has_message_sender _ (targets-length _ message.source_peer_id r) (
                  get_flooding_targets-IsForward message r (ground (arith, near)) _
                    (ap (λ (n : ℕ). FileQuery.serialize (record message { hop_count = n })) hops)))
        ]
      ]

copy_if-append_kept :
    {A : Type 0} (p : A → Bool) (xs : List A) (x : A)
    → p x ≡ true
    → copy_if p (xs ++ x ∷ []) ≡ copy_if p xs ++ x ∷ []
unfolding copy_if remove_if
copy_if-append_kept p [] x h = rw h refl
copy_if-append_kept p (y ∷ ys) x h = ground (arith, copy_if-append_kept p ys x h)

is_empty-append : {A : Type 0} (xs : List A) (x : A) → is_empty (xs ++ x ∷ []) ≡ false
is_empty-append [] x = refl
is_empty-append (y ∷ ys) x = refl

module _ {F : Type 0} ⦃d : Double F⦄ where
  -- The location that an announcement stores.
  abbrev pub announced_location : (now own : ℕ) → (file_id file_hash : Bytes) → ℕ → FileLocation F
  announced_location now own file_id file_hash file_size = record {
    file_id = file_id;
    peer_id = own;
    file_hash = file_hash;
    file_size = file_size;
    announced_at = now;
    availability_score = one;
  }

  -- When a file has been announced at a router whose message sender is set, a query for it
  -- whose number the router has not seen within a minute is answered, to the query's source, with one response that holds the
  -- router's own locations of the file that were there, and behind them the announced one; the
  -- query is not sent on.
  pub handle_file_query-announce_file :
      (shuffle : List ℕ → List ℕ) (before now : ℕ) (file_hash : Bytes) (file_size : ℕ)
      (message : FileQueryMessage) (r : Router F)
      → is_recent now (find message.query_id r.query_cache) ≡ false
      → r.has_message_sender ≡ true
      → (handle_file_query shuffle now message
          (announce_file before message.file_id file_hash file_size r).0).1
        ≡ to_peer message.source_peer_id 0x30 (
            FileQueryResponse.serialize d (record {
              query_id = message.query_id;
              file_locations =
                  copy_if (is_local r.table) (or_empty (find message.file_id r.file_locations))
                  ++ announced_location before r.table.local_peer_id message.file_id file_hash
                      file_size
                    ∷ [];
              responding_peer_id = r.table.local_peer_id;
            }))
          ∷ []
  unfolding handle_file_query respond_or_forward announce_file
  handle_file_query-announce_file shuffle before now file_hash file_size message r fresh set =
      let old = or_empty (find message.file_id r.file_locations) in
      let new =
        announced_location before r.table.local_peer_id message.file_id file_hash file_size in
      let found = find-insert message.file_id message.file_id (old ++ new ∷ []) r.file_locations in
      let kept = copy_if-append_kept (is_local r.table) old new (==_refl r.table.local_peer_id) in
      let some_left = is_empty-append (copy_if (is_local r.table) old) new in
      rw (fresh, found, bytes_beq_self message.file_id, kept, some_left, set) refl
