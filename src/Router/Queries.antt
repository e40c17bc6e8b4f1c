-- ===== src/Router/Queries.antt =====
-- The queries of `PeerRouter`, src/network/peer_router.cpp: a query floods the direct peers until a
-- router has the file. The order of `std::shuffle`, which is random, and `std::to_string` are
-- arguments.
pub mod Once
pub mod Answers
use Prim.Native.Nat.{bit_and, bit_xor}
use hyper_share.Prelude.{
  ℕ, zero, suc, ◌+◌, ◌-◌, ◌*◌, ◌/◌, ◌%◌, ◌^◌, Bool, true, false, ◌&&◌, not, List, [], ◌∷◌, ◌++◌,
  map, Option, none, some, ltb, ◌==◌, if◌then◌else◌, length, take,
}
use hyper_share.Wire.{Bytes}
use hyper_share.Maps.{nat_eq, bytes_eq, bytes_beq, Map, find, insert, erase, erase_if}
use hyper_share.Router.Double.{Double, one}
use hyper_share.Router.Table.{PeerRouter, max_hop_count, get_next_hop, expire_routes}
use hyper_share.Router.RouteUpdate.{RouteUpdateMessage}
use hyper_share.Router.RouteUpdate as RouteUpdate
use hyper_share.Router.FileQuery.{FileQueryMessage}
use hyper_share.Router.FileQuery as FileQuery
use hyper_share.Router.FileQueryResponse.{FileLocation, FileQueryResponseMessage}
use hyper_share.Router.FileQueryResponse as FileQueryResponse
use hyper_share.Router.TopologySync.{TopologySyncMessage}
use hyper_share.Router.TopologySync as TopologySync
use hyper_share.Protocol.FileAnnounce as FileAnnounce
use hyper_share.Router.Files.{
  Send, to_peer, to_all, Router, when, or_empty, remove_if, copy_if, is_empty, is_local,
  get_flooding_targets, file_announce_type, route_update_type, topology_sync_type,
  max_flooding_targets,
}

-- The recency of a query: 60 seconds before it is processed again, 5 minutes before it is forgotten.
abbrev pub query_window : ℕ
query_window = 60000000000

abbrev pub is_recent : (now : ℕ) → Option ℕ → Bool
is_recent now none = false
is_recent now (some seen) = ltb (now - seen) query_window

-- `calculate_crc32`, a bit at a time.
unfoldable pub crc_bits : ℕ → ℕ → ℕ
crc_bits zero crc = crc
crc_bits (suc i) crc =
    crc_bits i (if bit_and crc 1 == 1 then bit_xor (crc / 2) 0xEDB88320 else crc / 2)

unfoldable pub crc_bytes : ℕ → Bytes → ℕ
crc_bytes crc [] = crc
crc_bytes crc (byte ∷ rest) = crc_bytes (crc_bits 8 (bit_xor crc byte)) rest

unfoldable pub calculate_crc32 : Bytes → ℕ
calculate_crc32 bytes = bit_xor (crc_bytes 0xFFFFFFFF bytes) 0xFFFFFFFF

unfoldable pub query_string : Bytes → List Bytes → Bytes
query_string file_id [] = file_id
query_string file_id (term ∷ rest) = query_string (file_id ++ b'|' ∷ term) rest

module _ {F : Type 0} ⦃d : Double F⦄ where
  -- The query of `find_file`.
  abbrev pub new_query :
      (to_string : ℕ → Bytes) → PeerRouter F → Bytes → List Bytes → FileQueryMessage
  new_query to_string table file_id search_terms =
      let hash = calculate_crc32 (query_string file_id search_terms) in
      record {
        file_id = file_id;
        query_hash = to_string hash;
        source_peer_id = table.local_peer_id;
        query_id = hash;
        hop_count = 0;
        search_terms = search_terms;
      }

  unfoldable pub find_file :
      (to_string : ℕ → Bytes) (now : ℕ)
      → Bytes
      → List Bytes
      → Router F
      → Router F × (List Send × List (FileLocation F))
  find_file to_string now file_id search_terms r =
      let cached = or_empty (find file_id r.file_locations) in
      let query = new_query to_string r.table file_id search_terms in
      if is_empty cached
      then (
        record r { query_cache = insert query.query_id now r.query_cache },
        (
          when r.has_broadcast_sender (to_all route_update_type (FileQuery.serialize query) ∷ []),
          [],
        ),
      )
      else (r, ([], cached))

  -- What is sent about a query that is not a recent one.
  abbrev pub answer : FileQueryMessage → Router F → List (FileLocation F) → List Send
  answer message r matching_locations = when r.has_message_sender (
      to_peer message.source_peer_id route_update_type (
        FileQueryResponse.serialize d (record {
          query_id = message.query_id;
          file_locations = matching_locations;
          responding_peer_id = r.table.local_peer_id;
        }))
      ∷ [])

  abbrev pub forward : (shuffle : List ℕ → List ℕ) → FileQueryMessage → Router F → List Send
  forward shuffle message r =
      let forwarded =
        FileQuery.serialize (record message { hop_count = (message.hop_count + 1) % 2 ^ 8 }) in
      when r.has_message_sender (
        map (λ target. to_peer target route_update_type forwarded)
          (get_flooding_targets shuffle message.source_peer_id r))

  unfoldable pub respond_or_forward :
      (shuffle : List ℕ → List ℕ) → FileQueryMessage → Router F → List Send
  respond_or_forward shuffle message r =
      let matching_locations =
        copy_if (is_local r.table) (or_empty (find message.file_id r.file_locations)) in
      if not (is_empty matching_locations)
      then answer message r matching_locations
      else if ltb message.hop_count (max_hop_count - 1)
      then forward shuffle message r
      else []

  unfoldable pub handle_file_query :
      (shuffle : List ℕ → List ℕ) (now : ℕ) → FileQueryMessage → Router F → Router F × List Send
  handle_file_query shuffle now message r =
      if is_recent now (find message.query_id r.query_cache) then (r, []) else (
        record r { query_cache = insert message.query_id now r.query_cache },
        respond_or_forward shuffle message r,
      )
