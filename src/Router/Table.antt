-- ===== src/Router/Table.antt =====
-- The peers and the routes of `PeerRouter`, src/network/peer_router.cpp. The time is a number of
-- nanoseconds and an argument; a connection is a number. The maps `known_peers_`,
-- `direct_connections_` and `routing_table_` are association lists.
pub mod Finds
pub mod Invariant
pub mod Lost
pub mod Progress
use hyper_share.Prelude.{
  ℕ, ◌+◌, ◌-◌, ◌*◌, ◌%◌, ◌^◌, Bool, true, false, ◌&&◌, ◌||◌, List, [], ◌∷◌, Option, none, some, ltb,
  leb, ◌==◌, if◌then◌else◌, length,
}
use hyper_share.Wire.{Bytes}
use hyper_share.Maps.{nat_eq, Map, find, insert, erase, erase_if}
use hyper_share.Router.RouteUpdate.{RoutingPeerInfo, RouteUpdateMessage}
use hyper_share.Router.Double.{Double, zero_, one, tenths, min_double, max_double}

abbrev pub max_hop_count : ℕ
max_hop_count = 16

abbrev pub max_routing_entries : ℕ
max_routing_entries = 10000

-- `ROUTE_TIMEOUT`, 30 minutes
abbrev pub route_timeout : ℕ
route_timeout = 1800000000000

pub record RouteEntry (F : Type 0) : Type 0 where
  pub destination_peer_id : ℕ
  pub next_hop_peer_id : ℕ
  pub hop_count : ℕ
  pub last_updated : ℕ
  pub metric : F

-- `RoutingPeerInfo::is_expired` and `RouteEntry::is_expired`
abbrev pub is_expired : (now since : ℕ) → Bool
is_expired now since = ltb route_timeout (now - since)

-- The members that the routing mutex guards.
pub record PeerRouter (F : Type 0) : Type 0 where
  pub local_peer_id : ℕ
  pub known_peers : Map ℕ (RoutingPeerInfo F)
  pub direct_connections : Map ℕ ℕ
  pub routing_table : Map ℕ (RouteEntry F)
  pub route_sequence_number : ℕ

module _ {F : Type 0} where
  -- The constructor.
  unfoldable pub new_router : ℕ → PeerRouter F
  new_router local_peer_id = record {
    local_peer_id = local_peer_id;
    known_peers = [];
    direct_connections = [];
    routing_table = [];
    route_sequence_number = 0;
  }

  unfoldable pub remove_peer : ℕ → PeerRouter F → PeerRouter F
  remove_peer peer_id r = record r {
    known_peers = erase peer_id r.known_peers;
    direct_connections = erase peer_id r.direct_connections;
    routing_table =
        erase_if (λ route. route.next_hop_peer_id == peer_id) (erase peer_id r.routing_table);
  }

  abbrev pub live_next_hop : ℕ → Option (RouteEntry F) → Option ℕ
  live_next_hop now none = none
  live_next_hop now (some route) =
      if is_expired now route.last_updated then none else some route.next_hop_peer_id

  unfoldable pub get_next_hop : (now destination_peer_id : ℕ) → PeerRouter F → Option ℕ
  get_next_hop now destination_peer_id r =
      live_next_hop now (find destination_peer_id r.routing_table)

module _ {F : Type 0} ⦃d : Double F⦄ where
  unfoldable pub calculate_route_metric : RoutingPeerInfo F → F
  calculate_route_metric peer =
      let hops = d.mul (d.of_nat peer.hop_count) (tenths 2) in
      let reliability = d.mul (d.sub one peer.reliability_score) (tenths 4) in
      let bandwidth_factor =
        d.div (d.of_nat 1000000) (max_double (d.of_nat 1000) (d.of_nat peer.bandwidth_estimate)) in
      d.add (d.add hops reliability) (d.mul bandwidth_factor (tenths 4))

  abbrev pub direct_route : (now : ℕ) → RoutingPeerInfo F → ℕ → RouteEntry F
  direct_route now peer_info peer_id = record {
    destination_peer_id = peer_id;
    next_hop_peer_id = peer_id;
    hop_count = 1;
    last_updated = now;
    metric = calculate_route_metric peer_info;
  }

  unfoldable pub add_direct_peer :
      (now peer_id : ℕ) → Bytes → (port connection : ℕ) → PeerRouter F → PeerRouter F
  add_direct_peer now peer_id ip port connection r =
      let peer_info : RoutingPeerInfo F = record {
        peer_id = peer_id;
        ip_address = ip;
        port = port;
        last_seen = now;
        hop_count = 1;
        next_hop_peer_id = peer_id;
        reliability_score = one;
        bandwidth_estimate = 1000000;
      } in
      record r {
        known_peers = insert peer_id peer_info r.known_peers;
        direct_connections = insert peer_id connection r.direct_connections;
        routing_table = insert peer_id (direct_route now peer_info peer_id) r.routing_table;
      }

  -- Whether an update is better than what is known: the peer's entry and its route.
  abbrev pub should_update :
      (new_hop_count : ℕ)
      → RoutingPeerInfo F
      → Option (RoutingPeerInfo F)
      → Option (RouteEntry F)
      → Bool
  should_update new_hop_count peer_update none route = true
  should_update new_hop_count peer_update (some peer) none = false
  should_update new_hop_count peer_update (some peer) (some route) =
      ltb new_hop_count route.hop_count
      || ((new_hop_count == route.hop_count)
          && d.lt (calculate_route_metric peer_update) route.metric)

  -- The entries of an accepted update.
  abbrev pub learned_peer :
      (source_peer_id new_hop_count : ℕ) → RoutingPeerInfo F → RoutingPeerInfo F
  learned_peer source_peer_id new_hop_count peer_update = record peer_update {
    hop_count = new_hop_count;
    next_hop_peer_id = source_peer_id;
  }

  abbrev pub learned_route :
      (now source_peer_id new_hop_count : ℕ) → RoutingPeerInfo F → RouteEntry F
  learned_route now source_peer_id new_hop_count peer_update = record {
    destination_peer_id = peer_update.peer_id;
    next_hop_peer_id = source_peer_id;
    hop_count = new_hop_count;
    last_updated = now;
    metric = calculate_route_metric (learned_peer source_peer_id new_hop_count peer_update);
  }

  abbrev pub learn :
      (now source_peer_id new_hop_count : ℕ) → RoutingPeerInfo F → PeerRouter F → PeerRouter F
  learn now source_peer_id new_hop_count u r = record r {
    known_peers = insert u.peer_id (learned_peer source_peer_id new_hop_count u) r.known_peers;
    routing_table =
        insert u.peer_id (learned_route now source_peer_id new_hop_count u) r.routing_table;
  }

  -- One turn of the loop of `handle_route_update`, with the flag `routing_changed`.
  unfoldable pub apply_update :
      (now source_peer_id : ℕ) → RoutingPeerInfo F → PeerRouter F → PeerRouter F × Bool
  apply_update now source_peer_id peer_update r =
      let new_hop_count = (peer_update.hop_count + 1) % 2 ^ 8 in
      let known = find peer_update.peer_id r.known_peers in
      let route = find peer_update.peer_id r.routing_table in
      if peer_update.peer_id == r.local_peer_id
      then (r, false)
      else if leb max_hop_count new_hop_count
      then (r, false)
      else if should_update new_hop_count peer_update known route
          && ltb (length r.routing_table) max_routing_entries
      then (learn now source_peer_id new_hop_count peer_update r, true)
      else (r, false)

  unfoldable pub apply_updates :
      (now source_peer_id : ℕ) → List (RoutingPeerInfo F) → PeerRouter F → PeerRouter F × Bool
  apply_updates now source_peer_id [] r = (r, false)
  apply_updates now source_peer_id (peer_update ∷ rest) r =
      let (r', changed) = apply_update now source_peer_id peer_update r in
      let (r'', changed') = apply_updates now source_peer_id rest r' in (r'', changed || changed')

  abbrev pub count_change : PeerRouter F → Bool → PeerRouter F
  count_change r true = record r { route_sequence_number = (r.route_sequence_number + 1) % 2 ^ 64 }
  count_change r false = r

  unfoldable pub handle_route_update :
      (now : ℕ) → RouteUpdateMessage F → PeerRouter F → PeerRouter F
  handle_route_update now message r =
      let (r', changed) = apply_updates now message.source_peer_id message.peer_updates r in
      if message.source_peer_id == r.local_peer_id
      then r
      else if leb max_hop_count message.hop_count
      then r
      else count_change r' changed

  abbrev pub rate : Bool → RoutingPeerInfo F → RoutingPeerInfo F
  rate true peer = record peer {
    reliability_score = min_double one (d.add peer.reliability_score (tenths 1));
  }
  rate false peer = record peer {
    reliability_score = max_double zero_ (d.sub peer.reliability_score (tenths 2));
  }

  abbrev pub update_metric :
      ℕ → RoutingPeerInfo F → Map ℕ (RouteEntry F) → Option (RouteEntry F) → Map ℕ (RouteEntry F)
  update_metric peer_id peer table none = table
  update_metric peer_id peer table (some route) =
      insert peer_id (record route { metric = calculate_route_metric peer }) table

  abbrev pub rate_known : ℕ → Bool → PeerRouter F → Option (RoutingPeerInfo F) → PeerRouter F
  rate_known peer_id success r none = r
  rate_known peer_id success r (some peer) = record r {
    known_peers = insert peer_id (rate success peer) r.known_peers;
    routing_table =
        update_metric peer_id (rate success peer) r.routing_table (find peer_id r.routing_table);
  }

  unfoldable pub update_peer_reliability : ℕ → Bool → PeerRouter F → PeerRouter F
  update_peer_reliability peer_id success r =
      rate_known peer_id success r (find peer_id r.known_peers)

  -- The first loop of `cleanup_expired_entries`: the peers that stay, and the routes.
  unfoldable pub expire_peers :
      (now : ℕ)
      → Map ℕ (RoutingPeerInfo F)
      → Map ℕ (RouteEntry F)
      → Map ℕ (RoutingPeerInfo F) × Map ℕ (RouteEntry F)
  expire_peers now [] table = ([], table)
  expire_peers now ((peer_id, peer) ∷ peers) table =
      let (kept, table') =
        expire_peers now peers
          (if is_expired now peer.last_seen then erase peer_id table else table) in
      let decayed = record peer {
        reliability_score = d.mul peer.reliability_score (d.div (d.of_nat 95) (d.of_nat 100));
      } in
      (if is_expired now peer.last_seen then kept else (peer_id, decayed) ∷ kept, table')

  -- The parts of `cleanup_expired_entries` on peers and routes.
  unfoldable pub expire_routes : (now : ℕ) → PeerRouter F → PeerRouter F
  expire_routes now r =
      let (peers, table) = expire_peers now r.known_peers r.routing_table in
      record r {
        known_peers = peers;
        routing_table = erase_if (λ route. is_expired now route.last_updated) table;
      }

  unfoldable pub direct_routes :
      (now : ℕ) → Map ℕ (RoutingPeerInfo F) → Map ℕ (RouteEntry F) → Map ℕ (RouteEntry F)
  direct_routes now [] table = table
  direct_routes now ((peer_id, peer_info) ∷ peers) table = direct_routes now peers (
      if peer_info.hop_count == 1
      then insert peer_id (direct_route now peer_info peer_id) table
      else table)

  unfoldable pub rebuild_routing_table : (now : ℕ) → PeerRouter F → PeerRouter F
  rebuild_routing_table now r = record r { routing_table = direct_routes now r.known_peers [] }
