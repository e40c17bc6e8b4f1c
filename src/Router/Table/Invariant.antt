-- ===== src/Router/Table/Invariant.antt =====
-- What the calls on the routes of src/network/peer_router.cpp keep: a relation of one call after
-- another, and an invariant of the states that it reaches.
use hyper_share.Prelude.{
  ℕ, ◌<◌, ◌≡◌, ◌≢◌, refl, sym, ◌∙◌, Bool, [], ◌∷◌, Option, none, some, inl, inr, Bool-cases,
  Option-cases, arith, ◌==◌, ==_iff,
}
use hyper_share.Wire.{Bytes}
use hyper_share.Maps.{
  nat_eq, Map, find, insert, erase, erase_if, find-insert, find-erase, find-erase_if, IsMap,
  insert-IsMap, erase-IsMap, erase_if-IsMap, unless,
}
use hyper_share.Router.Double.{Double}
use hyper_share.Router.Table.{
  PeerRouter, RouteEntry, new_router, add_direct_peer, remove_peer, handle_route_update,
  update_peer_reliability, rate, expire_routes, rebuild_routing_table, expire_peers, direct_routes,
  direct_route, is_expired, rate_known,
}
use hyper_share.Router.RouteUpdate.{RoutingPeerInfo, RouteUpdateMessage}
use hyper_share.Router.Table.Finds.{
  Applied, ignored, learned, handle_route_update-keeps, expire_peers-IsMap,
  expire_peers-IsMap_routes, find-expire_peers_route, find-expire_peers_unknown, find-expire_peers,
}

-- One call, at any time. A peer is not connected to itself.
pub data Step {F : Type 0} ⦃d : Double F⦄ (r : PeerRouter F) : PeerRouter F → Type 0 where
  connects :
      (now peer_id : ℕ) (ip : Bytes) (port connection : ℕ)
      → peer_id ≢ r.local_peer_id
      → Step r (add_direct_peer now peer_id ip port connection r)
  leaves : (peer_id : ℕ) → Step r (remove_peer peer_id r)
  hears : (now : ℕ) (message : RouteUpdateMessage F) → Step r (handle_route_update now message r)
  rates : (peer_id : ℕ) (success : Bool) → Step r (update_peer_reliability peer_id success r)
  expires : (now : ℕ) → Step r (expire_routes now r)
  rebuilds : (now : ℕ) → Step r (rebuild_routing_table now r)

pub data Reach {F : Type 0} ⦃d : Double F⦄ (local_peer_id : ℕ) : PeerRouter F → Type 0 where
  starts : Reach local_peer_id (new_router local_peer_id)
  steps : (r r' : PeerRouter F) → Reach local_peer_id r → Step r r' → Reach local_peer_id r'

-- The maps have each key once; a route stands under its destination, is shorter than 16 hops, and
-- is to a known peer; the peer itself is not among those.
pub record IsRouting {F : Type 0} (local_peer_id : ℕ) (r : PeerRouter F) : Type 0 where
  pub own_id : r.local_peer_id ≡ local_peer_id
  pub peers_IsMap : IsMap r.known_peers
  pub routes_IsMap : IsMap r.routing_table
  pub destination :
      (k : ℕ) (route : RouteEntry F)
      → find k r.routing_table ≡ some route
      → route.destination_peer_id ≡ k
  pub hops :
      (k : ℕ) (route : RouteEntry F) → find k r.routing_table ≡ some route → route.hop_count < 16
  pub other : find local_peer_id r.known_peers ≡ none
  pub known : (k : ℕ) → find k r.known_peers ≡ none → find k r.routing_table ≡ none

module _ {F : Type 0} ⦃d : Double F⦄ (own : ℕ) where
  -- The connections and the counter do not matter.
  beside-IsRouting :
      (r : PeerRouter F) (connections : Map ℕ ℕ) (number : ℕ)
      → IsRouting own r
      → IsRouting own
          (record r { direct_connections = connections; route_sequence_number = number })
  beside-IsRouting r connections number v = record {
    own_id = v.own_id;
    peers_IsMap = v.peers_IsMap;
    routes_IsMap = v.routes_IsMap;
    destination = v.destination;
    hops = v.hops;
    other = v.other;
    known = v.known;
  }

  -- A new route to a peer, with the peer made known.
  insert-IsRouting :
      (r : PeerRouter F) (k : ℕ) (peer : RoutingPeerInfo F) (route : RouteEntry F)
      → IsRouting own r
      → k ≢ own
      → route.destination_peer_id ≡ k
      → route.hop_count < 16
      → IsRouting own (record r {
        known_peers = insert k peer r.known_peers;
        routing_table = insert k route r.routing_table;
      })
  insert-IsRouting r k peer route v ne here near = record {
    own_id = v.own_id;
    peers_IsMap = insert-IsMap k peer r.known_peers v.peers_IsMap;
    routes_IsMap = insert-IsMap k route r.routing_table v.routes_IsMap;
    destination = λ j x h.
        ground
          (arith, v.destination j x, here, find-insert k j route r.routing_table, ==_iff k j, h);
    hops = λ j x h. ground (arith, v.hops j x, near, find-insert k j route r.routing_table, h);
    other = ground (arith, v.other, find-insert k own peer r.known_peers, ==_iff k own, ne);
    known = λ j h. ground (
      arith,
      v.known j,
      find-insert k j route r.routing_table,
      find-insert k j peer r.known_peers,
      h,
    );
  }

  add_direct_peer-IsRouting :
      (now k : ℕ) (ip : Bytes) (port connection : ℕ) (r : PeerRouter F)
      → k ≢ r.local_peer_id
      → IsRouting own r
      → IsRouting own (add_direct_peer now k ip port connection r)
  unfolding add_direct_peer
  add_direct_peer-IsRouting now k ip port connection r ne v =
      insert-IsRouting (record r { direct_connections = insert k connection r.direct_connections })
        k _ _ (beside-IsRouting r _ r.route_sequence_number v) (λ e. ne (e ∙ sym v.own_id)) refl
        (omega arith)

  remove_peer-IsRouting :
      (k : ℕ) (r : PeerRouter F) → IsRouting own r → IsRouting own (remove_peer k r)
  unfolding remove_peer
  remove_peer-IsRouting k r v =
      let relayed : RouteEntry F → Bool = λ x. x.next_hop_peer_id == k in
      let distinct = erase-IsMap k r.routing_table v.routes_IsMap in
      let left : (j : ℕ)
          → find j (erase_if relayed (erase k r.routing_table))
            ≡ unless relayed (find j (erase k r.routing_table)) =
        λ j. find-erase_if relayed j (erase k r.routing_table) distinct in
      let kept = λ (j : ℕ). find-erase k j r.routing_table in
      record {
        own_id = v.own_id;
        peers_IsMap = erase-IsMap k r.known_peers v.peers_IsMap;
        routes_IsMap = erase_if-IsMap relayed _ distinct;
        destination = λ j x h. ground (arith, v.destination j x, left j, kept j, h);
        hops = λ j x h. ground (arith, v.hops j x, left j, kept j, h);
        other = ground (arith, v.other, find-erase k own r.known_peers);
        known = λ j h. ground (arith, v.known j, left j, kept j, find-erase k j r.known_peers, h);
      }

  Applied-IsRouting :
      (now source : ℕ) (u : RoutingPeerInfo F) (r : PeerRouter F) (done : PeerRouter F × Bool)
      → Applied now source u r done
      → IsRouting own r
      → IsRouting own done.0
  Applied-IsRouting now source u r done ignored v = v
  Applied-IsRouting now source u r done (learned n ne near room better) v =
      insert-IsRouting r u.peer_id _ _ v (λ e. ne (e ∙ sym v.own_id)) refl near

  handle_route_update-IsRouting :
      (now : ℕ) (message : RouteUpdateMessage F) (r : PeerRouter F)
      → IsRouting own r
      → IsRouting own (handle_route_update now message r)
  handle_route_update-IsRouting =
      handle_route_update-keeps (IsRouting own) Applied-IsRouting
        (λ r n. beside-IsRouting r r.direct_connections n)

  expire_routes-IsRouting :
      (now : ℕ) (r : PeerRouter F) → IsRouting own r → IsRouting own (expire_routes now r)
  unfolding expire_routes
  expire_routes-IsRouting now r v =
      let old : RouteEntry F → Bool = λ x. is_expired now x.last_updated in
      let table = (expire_peers now r.known_peers r.routing_table).1 in
      let distinct = expire_peers-IsMap_routes now r.known_peers r.routing_table v.routes_IsMap in
      let left : (j : ℕ) → find j (erase_if old table) ≡ unless old (find j table) =
        λ j. find-erase_if old j table distinct in
      let kept = λ (j : ℕ) (x : RouteEntry F).
        find-expire_peers_route now j r.known_peers r.routing_table x in
      let gone =
        λ (j : ℕ). find-expire_peers_unknown now j r.known_peers r.routing_table (v.known j) in
      record {
        own_id = v.own_id;
        peers_IsMap = expire_peers-IsMap now r.known_peers r.routing_table v.peers_IsMap;
        routes_IsMap = erase_if-IsMap old table distinct;
        destination = λ j x h. ground (arith, v.destination j x, left j, kept j x, h);
        hops = λ j x h. ground (arith, v.hops j x, left j, kept j x, h);
        other = find-expire_peers now own r.known_peers r.routing_table v.other;
        known = λ j h. ground (arith, left j, gone j, h);
      }

  rate_known-IsRouting :
      (k : ℕ) (success : Bool) (r : PeerRouter F) (peer : Option (RoutingPeerInfo F))
      → find k r.known_peers ≡ peer
      → IsRouting own r
      → IsRouting own (rate_known k success r peer)
  rate_known-IsRouting k success r none e v = v
  rate_known-IsRouting k success r (some peer) e v =
      let rated = rate success peer in
      elim (Option-cases (find k r.routing_table)) [
        | inl gone ↦ rw gone (record {
          own_id = v.own_id;
          peers_IsMap = insert-IsMap k rated r.known_peers v.peers_IsMap;
          routes_IsMap = v.routes_IsMap;
          destination = v.destination;
          hops = v.hops;
          other = ground (arith, v.other, find-insert k own rated r.known_peers, ==_iff k own, e);
          known = λ j h. ground (arith, v.known j, find-insert k j rated r.known_peers, h);
        })
        | inr (route, found) ↦ rw found (
            insert-IsRouting r k rated _ v (λ mine. ground (arith, v.other, e, mine))
              (v.destination k route found) (v.hops k route found))
      ]

  -- A new route to a known peer.
  route-IsRouting :
      (r : PeerRouter F) (k : ℕ) (route : RouteEntry F)
      → IsRouting own r
      → find k r.known_peers ≢ none
      → route.destination_peer_id ≡ k
      → route.hop_count < 16
      → IsRouting own (record r { routing_table = insert k route r.routing_table })
  route-IsRouting r k route v is_known here near = record {
    own_id = v.own_id;
    peers_IsMap = v.peers_IsMap;
    routes_IsMap = insert-IsMap k route r.routing_table v.routes_IsMap;
    destination = λ j x h.
        ground
          (arith, v.destination j x, here, find-insert k j route r.routing_table, ==_iff k j, h);
    hops = λ j x h. ground (arith, v.hops j x, near, find-insert k j route r.routing_table, h);
    other = v.other;
    known = λ j h.
        ground (arith, v.known j, find-insert k j route r.routing_table, is_known, ==_iff k j, h);
  }

  direct_routes-IsRouting :
      (now : ℕ) (peers : Map ℕ (RoutingPeerInfo F)) (r : PeerRouter F)
      → ((k : ℕ) → find k r.known_peers ≡ none → find k peers ≡ none)
      → IsRouting own r
      → IsRouting own (record r { routing_table = direct_routes now peers r.routing_table })
  unfolding direct_routes find
  direct_routes-IsRouting now [] r h v = beside-IsRouting r _ _ v
  direct_routes-IsRouting now ((i, p) ∷ peers) r h v =
      let rest : (k : ℕ) → find k r.known_peers ≡ none → find k peers ≡ none =
        λ k e. ground (arith, h k e) in
      elim (Bool-cases (p.hop_count == 1)) [
        | inl near ↦ rw near (
            direct_routes-IsRouting now peers _ rest (
              route-IsRouting r i (direct_route now p i) v (λ e. ground (arith, h i e)) refl
                (omega arith)))
        | inr far ↦ rw far (direct_routes-IsRouting now peers r rest v)
      ]

  rebuild_routing_table-IsRouting :
      (now : ℕ) (r : PeerRouter F) → IsRouting own r → IsRouting own (rebuild_routing_table now r)
  unfolding rebuild_routing_table find
  rebuild_routing_table-IsRouting now r v =
      direct_routes-IsRouting now r.known_peers (record r { routing_table = [] }) (λ k h. h)
        (record {
          own_id = v.own_id;
          peers_IsMap = v.peers_IsMap;
          routes_IsMap = tt;
          destination = λ j x h. ground (arith, h);
          hops = λ j x h. ground (arith, h);
          other = v.other;
          known = λ j h. refl;
        })

  Step-IsRouting : (r r' : PeerRouter F) → Step r r' → IsRouting own r → IsRouting own r'
  unfolding update_peer_reliability
  Step-IsRouting r r' (connects now k ip port connection ne) v =
      add_direct_peer-IsRouting now k ip port connection r ne v
  Step-IsRouting r r' (leaves k) v = remove_peer-IsRouting k r v
  Step-IsRouting r r' (hears now message) v = handle_route_update-IsRouting now message r v
  Step-IsRouting r r' (rates k success) v = rate_known-IsRouting k success r _ refl v
  Step-IsRouting r r' (expires now) v = expire_routes-IsRouting now r v
  Step-IsRouting r r' (rebuilds now) v = rebuild_routing_table-IsRouting now r v

  -- Whatever calls are made after the construction of a router that is never connected to itself, and
  -- at whatever times: each key stands once in its maps, every route stands under its own
  -- destination, is shorter than 16 hops and leads to a peer that is known, and the router's own
  -- number is not among the peers.
  pub Reach-IsRouting : (r : PeerRouter F) → Reach own r → IsRouting own r
  unfolding new_router find
  Reach-IsRouting r starts = record {
    own_id = refl;
    peers_IsMap = tt;
    routes_IsMap = tt;
    destination = λ j x h. ground (arith, h);
    hops = λ j x h. ground (arith, h);
    other = refl;
    known = λ j h. refl;
  }
  Reach-IsRouting r (steps r0 r1 before step) = Step-IsRouting r0 r step (Reach-IsRouting r0 before)
