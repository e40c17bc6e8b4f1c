-- ===== src/Router/Files.antt =====
-- The files of `PeerRouter`, src/network/peer_router.cpp, and what it sends. What a call gives to the
-- two sender callbacks is returned as a list; whether they are set is a part of the state. The order
-- of `std::shuffle`, which is random, and `std::sort` are arguments.
pub mod Locations
use hyper_share.Prelude.{
  ℕ, zero, suc, ◌+◌, ◌-◌, ◌*◌, ◌/◌, ◌%◌, ◌^◌, Bool, true, false, ◌&&◌, not, List, [], ◌∷◌, ◌++◌,
  map, Option, none, some, ltb, ◌==◌, if◌then◌else◌, length, take,
}
use hyper_share.Wire.{Bytes}
use hyper_share.Maps.{nat_eq, bytes_eq, bytes_beq, Map, find, insert, erase, erase_if}
use hyper_share.Router.Double.{Double, one}
use hyper_share.Router.Table.{PeerRouter, max_hop_count, get_next_hop, expire_routes}
use hyper_share.Router.RouteUpdate.{RouteUpdateMessage}
use hyper_share.Router.RouteUpdate as RouteUpdate
use hyper_share.Router.FileQuery.{FileQueryMessage}
use hyper_share.Router.FileQuery as FileQuery
use hyper_share.Router.FileQueryResponse.{FileLocation, FileQueryResponseMessage}
use hyper_share.Router.FileQueryResponse as FileQueryResponse
use hyper_share.Router.TopologySync.{TopologySyncMessage}
use hyper_share.Router.TopologySync as TopologySync
use hyper_share.Protocol.FileAnnounce as FileAnnounce

abbrev pub max_file_locations : ℕ
max_file_locations = 50000

abbrev pub max_flooding_targets : ℕ
max_flooding_targets = 5

-- `MessageType::FILE_ANNOUNCE`, `ROUTE_UPDATE` and `TOPOLOGY_SYNC`
abbrev pub file_announce_type : ℕ
file_announce_type = 0x20

abbrev pub route_update_type : ℕ
route_update_type = 0x30

abbrev pub topology_sync_type : ℕ
topology_sync_type = 0x31

-- A call of `message_sender_` or of `broadcast_sender_`.
pub data Send : Type 0 where
  to_peer : (peer_id type : ℕ) (payload : Bytes) → Send
  to_all : (type : ℕ) (payload : Bytes) → Send

pub record Router (F : Type 0) : Type 0 where
  pub table : PeerRouter F
  pub local_files : List Bytes
  pub file_locations : Map Bytes (List (FileLocation F))
  pub query_cache : Map ℕ ℕ
  pub has_message_sender : Bool
  pub has_broadcast_sender : Bool

-- `if (sender) sender(...)`
abbrev pub when : Bool → List Send → List Send
when set sends = if set then sends else []

-- `std::unordered_set::insert` and `erase`
unfoldable pub insert_file : Bytes → List Bytes → List Bytes
insert_file x [] = x ∷ []
insert_file x (y ∷ ys) = if bytes_beq x y then y ∷ ys else y ∷ insert_file x ys

unfoldable pub erase_file : Bytes → List Bytes → List Bytes
erase_file x [] = []
erase_file x (y ∷ ys) = let rest = erase_file x ys in if bytes_beq x y then rest else y ∷ rest

abbrev pub or_empty : {A : Type 0} → Option (List A) → List A
or_empty none = []
or_empty (some xs) = xs

-- `std::remove_if` with `erase`
unfoldable pub remove_if : {A : Type 0} → (A → Bool) → List A → List A
remove_if p [] = []
remove_if p (x ∷ xs) = let rest = remove_if p xs in if p x then rest else x ∷ rest

unfoldable pub copy_if : {A : Type 0} → (A → Bool) → List A → List A
copy_if p xs = remove_if (λ x. not (p x)) xs

abbrev pub is_empty : {A : Type 0} → List A → Bool
is_empty [] = true
is_empty (x ∷ xs) = false

abbrev pub candidates : ℕ → Map ℕ ℕ → List ℕ
candidates source_peer_id connections =
    remove_if (λ p. p == source_peer_id) (map (λ entry. entry.0) connections)

module _ {F : Type 0} where
  -- The locations at this router itself.
  abbrev pub is_local : PeerRouter F → FileLocation F → Bool
  is_local table location = location.peer_id == table.local_peer_id

  -- `it->second` without its local locations; an empty list goes.
  abbrev pub without_local :
      PeerRouter F
      → Bytes
      → Map Bytes (List (FileLocation F))
      → Option (List (FileLocation F))
      → Map Bytes (List (FileLocation F))
  without_local table file_id all none = all
  without_local table file_id all (some locations) =
      let rest = remove_if (is_local table) locations in
      if is_empty rest then erase file_id all else insert file_id rest all

  unfoldable pub remove_file : Bytes → Router F → Router F
  remove_file file_id r = record r {
    local_files = erase_file file_id r.local_files;
    file_locations = without_local r.table file_id r.file_locations (find file_id r.file_locations);
  }

  -- `mine.peer_id == loc.peer_id && mine.file_hash == loc.file_hash`, of some element.
  unfoldable pub has_location : FileLocation F → List (FileLocation F) → Bool
  has_location location [] = false
  has_location location (x ∷ xs) =
      if x.peer_id == location.peer_id && bytes_beq x.file_hash location.file_hash
      then true
      else has_location location xs

  abbrev pub add_location : FileLocation F → List (FileLocation F) → List (FileLocation F)
  add_location location locations =
      if not (has_location location locations) && ltb (length locations) max_file_locations
      then locations ++ location ∷ []
      else locations

  unfoldable pub add_locations :
      List (FileLocation F) → Map Bytes (List (FileLocation F)) → Map Bytes (List (FileLocation F))
  add_locations [] all = all
  add_locations (location ∷ rest) all =
      add_locations rest
        (insert location.file_id (add_location location (or_empty (find location.file_id all))) all)

  unfoldable pub handle_file_query_response : FileQueryResponseMessage F → Router F → Router F
  handle_file_query_response message r = record r {
    file_locations = add_locations message.file_locations r.file_locations;
  }

  unfoldable pub get_flooding_targets : (shuffle : List ℕ → List ℕ) → ℕ → Router F → List ℕ
  get_flooding_targets shuffle source_peer_id r =
      take max_flooding_targets (shuffle (candidates source_peer_id r.table.direct_connections))

  unfoldable pub forward_message :
      (now destination_peer_id type : ℕ) → Bytes → Router F → List Send × Bool
  forward_message now destination_peer_id type payload r =
      elim (get_next_hop now destination_peer_id r.table) [
        | none ↦ ([], false)
        | some next_hop ↦
            if r.has_message_sender then (to_peer next_hop type payload ∷ [], true) else ([], false)
      ]

  unfoldable pub all_locations : Map Bytes (List (FileLocation F)) → List (FileLocation F)
  all_locations [] = []
  all_locations ((id, locations) ∷ rest) = locations ++ all_locations rest

  unfoldable pub get_file_locations : Bytes → Router F → List (FileLocation F)
  get_file_locations file_id r =
      if is_empty file_id
      then all_locations r.file_locations
      else or_empty (find file_id r.file_locations)

module _ {F : Type 0} ⦃d : Double F⦄ where
  unfoldable pub announce_file :
      (now : ℕ) → (file_id file_hash : Bytes) → (file_size : ℕ) → Router F → Router F × List Send
  announce_file now file_id file_hash file_size r =
      let location : FileLocation F = record {
        file_id = file_id;
        peer_id = r.table.local_peer_id;
        file_hash = file_hash;
        file_size = file_size;
        announced_at = now;
        availability_score = one;
      } in
      (
        record r {
          local_files = insert_file file_id r.local_files;
          file_locations =
              insert file_id (or_empty (find file_id r.file_locations) ++ location ∷ [])
                r.file_locations;
        },
        when r.has_broadcast_sender (
            to_all file_announce_type (
              FileAnnounce.serialize (record {
                file_id = file_id;
                filename = file_id;
                file_size = file_size;
                file_hash = file_hash;
                tags = [];
              }))
            ∷ []),
      )

  -- The scores, before they are sorted.
  abbrev pub score_of : PeerRouter F → FileLocation F → F
  score_of table location = elim (find location.peer_id table.routing_table) [
    | none ↦ location.availability_score
    | some route ↦ d.div location.availability_score (d.add one (d.of_nat route.hop_count))
  ]

  unfoldable pub get_optimal_peers_for_file :
      (sort : List (ℕ × F) → List (ℕ × F)) → Bytes → (max_peers : ℕ) → Router F → List ℕ
  get_optimal_peers_for_file sort file_id max_peers r =
      let peer_scores =
        map (λ location. (location.peer_id, score_of r.table location))
          (or_empty (find file_id r.file_locations)) in
      map (λ x. x.0) (take max_peers (sort peer_scores))
