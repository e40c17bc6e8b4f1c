-- ===== src/Router/Rounds.antt =====
-- What `PeerRouter` of src/network/peer_router.cpp does in every round of its maintenance thread, and
-- its answer to a topology message.
use hyper_share.Prelude.{ℕ, ◌+◌, ◌-◌, ◌%◌, ◌^◌, Bool, List, [], ◌∷◌, map, ltb, ◌==◌, if◌then◌else◌}
use hyper_share.Wire.{Bytes}
use hyper_share.Maps.{nat_eq, bytes_eq, Map, erase_if}
use hyper_share.Router.Double.{Double}
use hyper_share.Router.Table.{expire_routes}
use hyper_share.Router.RouteUpdate.{RouteUpdateMessage}
use hyper_share.Router.RouteUpdate as RouteUpdate
use hyper_share.Router.FileQueryResponse.{FileLocation}
use hyper_share.Router.TopologySync.{TopologySyncMessage}
use hyper_share.Router.TopologySync as TopologySync
use hyper_share.Router.Files.{
  Send, to_peer, to_all, Router, when, remove_if, is_empty, route_update_type, topology_sync_type,
}

module _ {F : Type 0} ⦃d : Double F⦄ where
  unfoldable pub send_route_updates : Router F → Router F × List Send
  send_route_updates r =
      let number = (r.table.route_sequence_number + 1) % 2 ^ 64 in
      if is_empty r.table.known_peers
      then (r, [])
      else if r.has_broadcast_sender
      then (
        record r { table = record r.table { route_sequence_number = number } },
        to_all route_update_type (
              RouteUpdate.serialize d (record {
                source_peer_id = r.table.local_peer_id;
                sequence_number = number;
                hop_count = 0;
                peer_updates = map (λ entry. entry.1) r.table.known_peers;
              }))
            ∷ [],
      )
      else (r, [])

  unfoldable pub send_topology_sync : Router F → List Send
  send_topology_sync r =
      if is_empty r.table.known_peers
      then []
      else when r.has_broadcast_sender (
          to_all topology_sync_type (
            TopologySync.serialize (record {
              requesting_peer_id = r.table.local_peer_id;
              last_known_sequence = r.table.route_sequence_number;
              known_peers = map (λ entry. entry.0) r.table.known_peers;
            }))
          ∷ [])

  -- One hour and five minutes.
  abbrev pub is_stale_location : (now : ℕ) → FileLocation F → Bool
  is_stale_location now location = ltb 3600000000000 (now - location.announced_at)

  unfoldable pub expire_locations :
      (now : ℕ) → Map Bytes (List (FileLocation F)) → Map Bytes (List (FileLocation F))
  expire_locations now [] = []
  expire_locations now ((id, locations) ∷ rest) =
      (id, remove_if (is_stale_location now) locations) ∷ expire_locations now rest

  unfoldable pub cleanup_expired_entries : (now : ℕ) → Router F → Router F
  cleanup_expired_entries now r = record r {
    table = expire_routes now r.table;
    file_locations =
        erase_if (λ locations. is_empty locations) (expire_locations now r.file_locations);
    query_cache = erase_if (λ seen. ltb 300000000000 (now - seen)) r.query_cache;
  }

  unfoldable pub handle_topology_sync : TopologySyncMessage → Router F → List Send
  handle_topology_sync message r = when r.has_message_sender (
      to_peer message.requesting_peer_id route_update_type (
        RouteUpdate.serialize d (record {
          source_peer_id = r.table.local_peer_id;
          sequence_number = r.table.route_sequence_number;
          hop_count = 0;
          peer_updates =
              map (λ entry. entry.1)
                (remove_if (λ entry. entry.0 == message.requesting_peer_id) r.table.known_peers);
        }))
      ∷ [])
