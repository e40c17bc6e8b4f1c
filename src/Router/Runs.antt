-- ===== src/Router/Runs.antt =====
-- Runs of a router.
use hyper_share.Prelude.{
  ℕ, ◌≤◌, ◌≡◌, ◌≢◌, refl, true, false, [], ◌∷◌, ◌++◌, none, some, All, arith, length,
}
use hyper_share.Maps.{nat_eq, bytes_eq, find, insert}
use hyper_share.Router.Double.{whole_scores}
use hyper_share.Router.RouteUpdate.{RouteUpdateMessage}
use hyper_share.Router.FileQuery.{FileQueryMessage}
use hyper_share.Router.FileQueryResponse.{FileQueryResponseMessage}
use hyper_share.Router.FileQueryResponse as FileQueryResponse
use hyper_share.Router.Table.{
  PeerRouter, RouteEntry, new_router, add_direct_peer, remove_peer, handle_route_update,
  apply_updates, apply_update, get_next_hop, calculate_route_metric,
}
use hyper_share.Router.Table.Invariant.{
  Reach, IsRouting, connects, hears, starts, steps, Reach-IsRouting,
}
use hyper_share.Router.Table.Lost.{
  get_next_hop-remove_peer, handle_route_updates, get_next_hop-handle_route_updates, unless_through,
}
use hyper_share.Router.Table.Progress.{hop_count-handle_route_update}
use hyper_share.Router.Files.{
  Router, to_peer, copy_if, remove_if, is_local, or_empty, announce_file,
}
use hyper_share.Router.Queries.{handle_file_query, is_recent}
use hyper_share.Router.Queries.Once.{cleanup, call_all, handle_file_query-call_all}
use hyper_share.Router.Queries.Answers.{
  IsForward, announced_location, handle_file_query-IsForward, handle_file_query-announce_file,
}

-- Router 1, connected to 2, from which it hears of 3.
abbrev r0 : PeerRouter ℕ
r0 = add_direct_peer 10 2 [] 8080 7 (new_router 1)

abbrev update : RouteUpdateMessage ℕ
update = record {
  source_peer_id = 2;
  peer_updates =
      record {
        peer_id = 3;
        ip_address = [];
        port = 8080;
        last_seen = 5;
        hop_count = 1;
        next_hop_peer_id = 3;
        reliability_score = 1;
        bandwidth_estimate = 1000000;
      }
      ∷ [];
  sequence_number = 1;
  hop_count = 0;
}

abbrev r1 : PeerRouter ℕ
r1 = handle_route_update 20 update r0

r0-reached : Reach 1 r0
unfolding new_router
r0-reached = steps (new_router 1) r0 starts (connects 10 2 [] 8080 7 (ground arith))

r1-reached : Reach 1 r1
r1-reached = steps r0 r1 r0-reached (hears 20 update)

Reach-IsRouting_example : IsRouting 1 r1
Reach-IsRouting_example = Reach-IsRouting 1 r1 r1-reached

-- Peer 2 leaves.
get_next_hop-remove_peer_example :
    get_next_hop 30 3 (remove_peer 2 r1) ≡ unless_through 2 (get_next_hop 30 3 r1)
get_next_hop-remove_peer_example = get_next_hop-remove_peer 1 30 3 2 r1 r1-reached

abbrev route_to_3 : RouteEntry ℕ
route_to_3 = record {
  destination_peer_id = 3;
  next_hop_peer_id = 2;
  hop_count = 2;
  last_updated = 20;
  metric = 0;
}

route_to_3-found : find 3 r1.routing_table ≡ some route_to_3
unfolding handle_route_update apply_updates apply_update add_direct_peer new_router find insert
    calculate_route_metric
route_to_3-found = refl

get_next_hop-handle_route_updates_example :
    get_next_hop 50 3 (handle_route_updates ((40, update) ∷ (45, update) ∷ []) (remove_peer 2 r1))
    ≡ none
get_next_hop-handle_route_updates_example =
    get_next_hop-handle_route_updates 1 50 3 2 route_to_3 ((40, update) ∷ (45, update) ∷ []) r1
      r1-reached (ground arith) route_to_3-found refl

hop_count-handle_route_update_example :
    (new : RouteEntry ℕ) × (find 3 (handle_route_update 40 update r1).routing_table ≡ some new)
    × (new.hop_count ≤ 2)
hop_count-handle_route_update_example =
    hop_count-handle_route_update 1 40 3 update r1 route_to_3 r1-reached route_to_3-found

abbrev router : Router ℕ
router = record {
  table = r1;
  local_files = [];
  file_locations = [];
  query_cache = [];
  has_message_sender = true;
  has_broadcast_sender = true;
}

abbrev asked : FileQueryMessage
asked = record {
  file_id = b'f' ∷ [];
  query_hash = [];
  source_peer_id = 9;
  query_id = 77;
  hop_count = 3;
  search_terms = [];
}

new_query_77 : is_recent 100 (find 77 router.query_cache) ≡ false
unfolding find
new_query_77 = refl

handle_file_query-call_all_example :
    (let r' = call_all ((200, cleanup) ∷ []) (handle_file_query (λ xs. xs) 100 asked router).0 in
      handle_file_query (λ xs. xs) 300 asked r' ≡ (r', []))
handle_file_query-call_all_example =
    handle_file_query-call_all (λ xs. xs) (λ xs. xs) 100 300 asked asked ((200, cleanup) ∷ [])
      router new_query_77 refl ((omega arith, omega arith), tt) (omega arith)

nothing_held :
    copy_if (is_local router.table) (or_empty (find asked.file_id router.file_locations)) ≡ []
unfolding find copy_if remove_if
nothing_held = refl

handle_file_query-IsForward_example :
    (length (handle_file_query (λ xs. xs) 100 asked router).1 ≤ 5)
    × All (IsForward asked r1.direct_connections) (handle_file_query (λ xs. xs) 100 asked router).1
handle_file_query-IsForward_example =
    handle_file_query-IsForward (λ xs. xs) (λ P xs h. h) 100 asked router nothing_held

handle_file_query-announce_file_example :
    (handle_file_query
      (λ xs. xs)
      100
      asked
      (announce_file 50 asked.file_id (b'h' ∷ []) 12 router).0).1
    ≡ to_peer 9 0x30 (
        FileQueryResponse.serialize whole_scores (record {
          query_id = 77;
          file_locations =
              copy_if (is_local router.table) (or_empty (find asked.file_id router.file_locations))
              ++ announced_location 50 router.table.local_peer_id asked.file_id (b'h' ∷ []) 12 ∷ [];
          responding_peer_id = router.table.local_peer_id;
        }))
      ∷ []
handle_file_query-announce_file_example =
    handle_file_query-announce_file (λ xs. xs) 50 100 (b'h' ∷ []) 12 asked router new_query_77 refl

abbrev response : FileQueryResponseMessage ℕ
response = record {
  query_id = 77;
  file_locations =
      record {
        file_id = b'f' ∷ [];
        peer_id = 4;
        file_hash = b'h' ∷ [];
        file_size = 12;
        announced_at = 60;
        availability_score = 1;
      }
      ∷ [];
  responding_peer_id = 4;
}

abbrev holding : Router ℕ
holding = (announce_file 50 asked.file_id (b'h' ∷ []) 12 router).0

other_file : (b'g' ∷ []) ≢ asked.file_id
other_file e = ground (arith, e)
