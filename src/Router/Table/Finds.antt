-- ===== src/Router/Table/Finds.antt =====
-- Lookups after the operations on the routes of src/network/peer_router.cpp.
use hyper_share.Prelude.{
  ℕ, ◌+◌, ◌%◌, ◌^◌, ◌<◌, ◌≡◌, ◌≢◌, refl, Bool, true, false, List, [], ◌∷◌, none, some, inl, inr,
  Bool-cases, arith, length, ◌==◌, ==_iff, ltb, leb, ◌&&◌,
}
use hyper_share.Maps.{nat_eq, Map, find, erase, find-erase, IsMap, erase-IsMap}
use hyper_share.Router.Double.{Double}
use hyper_share.Router.Table.{
  PeerRouter, RouteEntry, apply_update, apply_updates, handle_route_update, count_change,
  expire_peers, is_expired, max_hop_count, max_routing_entries, should_update, learn,
}
use hyper_share.Router.RouteUpdate.{RoutingPeerInfo, RouteUpdateMessage}

-- `learn` is called only for another peer, with a hop count in range and room in the table.
pub data Applied {F : Type 0} ⦃d : Double F⦄ (now source : ℕ) (u : RoutingPeerInfo F)
    (r : PeerRouter F) : PeerRouter F × Bool → Type 0 where
  ignored : Applied now source u r (r, false)
  learned :
      (new_hop_count : ℕ)
      → u.peer_id ≢ r.local_peer_id
      → new_hop_count < 16
      → length r.routing_table < 10000
      → should_update new_hop_count u
          (find u.peer_id r.known_peers)
          (find u.peer_id r.routing_table)
        ≡ true
      → Applied now source u r (learn now source new_hop_count u r, true)

module _ {F : Type 0} ⦃d : Double F⦄ where
  pub apply_update-Applied :
      (now source : ℕ) (u : RoutingPeerInfo F) (r : PeerRouter F)
      → Applied now source u r (apply_update now source u r)
  unfolding apply_update
  apply_update-Applied now source u r =
      let n = (u.hop_count + 1) % 2 ^ 8 in
      let better =
        should_update n u (find u.peer_id r.known_peers) (find u.peer_id r.routing_table) in
      elim (Bool-cases (u.peer_id == r.local_peer_id)) [
        | inl own ↦ rw own ignored
        | inr other ↦ elim (Bool-cases (leb max_hop_count n)) [
          | inl far ↦ rw (other, far) ignored
          | inr near ↦
              elim (Bool-cases (better && ltb (length r.routing_table) max_routing_entries)) [
                | inr worse ↦ rw (other, near, worse) ignored
                | inl good ↦
                    rw (other, near, good)
                      (learned n (ground (arith, other, ==_iff u.peer_id r.local_peer_id))
                        (ground (arith, near)) (ground (arith, good)) (ground (arith, good)))
              ]
        ]
      ]

  -- The first loop of `cleanup_expired_entries`.
  pub find-expire_peers :
      (now k : ℕ) (peers : Map ℕ (RoutingPeerInfo F)) (table : Map ℕ (RouteEntry F))
      → find k peers ≡ none
      → find k (expire_peers now peers table).0 ≡ none
  unfolding expire_peers find
  find-expire_peers now k [] table h = refl
  find-expire_peers now k ((i, p) ∷ peers) table h =
      ground
        (arith, find-expire_peers now k peers table, find-expire_peers now k peers (erase i table))

  pub expire_peers-IsMap :
      (now : ℕ) (peers : Map ℕ (RoutingPeerInfo F)) (table : Map ℕ (RouteEntry F))
      → IsMap peers
      → IsMap (expire_peers now peers table).0
  unfolding expire_peers
  expire_peers-IsMap now [] table h = tt
  expire_peers-IsMap now ((i, p) ∷ peers) table (f, h) =
      elim (Bool-cases (is_expired now p.last_seen)) [
        | inl old ↦ rw old (expire_peers-IsMap now peers (erase i table) h)
        | inr new ↦
            rw new (find-expire_peers now i peers table f, expire_peers-IsMap now peers table h)
      ]

  pub expire_peers-IsMap_routes :
      (now : ℕ) (peers : Map ℕ (RoutingPeerInfo F)) (table : Map ℕ (RouteEntry F))
      → IsMap table
      → IsMap (expire_peers now peers table).1
  unfolding expire_peers
  expire_peers-IsMap_routes now [] table h = h
  expire_peers-IsMap_routes now ((i, p) ∷ peers) table h =
      elim (Bool-cases (is_expired now p.last_seen)) [
        | inl old ↦
            rw old (expire_peers-IsMap_routes now peers (erase i table) (erase-IsMap i table h))
        | inr new ↦ rw new (expire_peers-IsMap_routes now peers table h)
      ]

  -- No route appears or changes.
  pub find-expire_peers_route :
      (now k : ℕ) (peers : Map ℕ (RoutingPeerInfo F)) (table : Map ℕ (RouteEntry F))
      (route : RouteEntry F)
      → find k (expire_peers now peers table).1 ≡ some route
      → find k table ≡ some route
  unfolding expire_peers
  find-expire_peers_route now k [] table route h = h
  find-expire_peers_route now k ((i, p) ∷ peers) table route h = ground (
    arith,
    find-erase i k table,
    find-expire_peers_route now k peers table route,
    find-expire_peers_route now k peers (erase i table) route,
  )

  -- A peer that goes takes its route along.
  pub find-expire_peers_unknown :
      (now k : ℕ) (peers : Map ℕ (RoutingPeerInfo F)) (table : Map ℕ (RouteEntry F))
      → (find k peers ≡ none → find k table ≡ none)
      → find k (expire_peers now peers table).0 ≡ none
      → find k (expire_peers now peers table).1 ≡ none
  unfolding expire_peers find
  find-expire_peers_unknown now k [] table known h = known refl
  find-expire_peers_unknown now k ((i, p) ∷ peers) table known h = ground (
    arith,
    ==_iff i k,
    find-erase i k table,
    known,
    find-expire_peers_unknown now k peers table,
    find-expire_peers_unknown now k peers (erase i table),
  )

-- What each turn of the loop and the count of the changes keep, the handler keeps.
module _ {F : Type 0} ⦃d : Double F⦄ (P : PeerRouter F → Type 0)
    (turn : (now source : ℕ) (u : RoutingPeerInfo F) (r : PeerRouter F) (done : PeerRouter F × Bool)
      → Applied now source u r done
      → P r
      → P done.0)
    (counted : (r : PeerRouter F) (n : ℕ) → P r → P (record r { route_sequence_number = n })) where
  apply_updates-keeps :
      (now source : ℕ) (us : List (RoutingPeerInfo F)) (r : PeerRouter F)
      → P r
      → P (apply_updates now source us r).0
  unfolding apply_updates
  apply_updates-keeps now source [] r v = v
  apply_updates-keeps now source (u ∷ us) r v =
      apply_updates-keeps now source us _
        (turn now source u r _ (apply_update-Applied now source u r) v)

  count_change-keeps : (r : PeerRouter F) (b : Bool) → P r → P (count_change r b)
  count_change-keeps r true v = counted r _ v
  count_change-keeps r false v = v

  pub handle_route_update-keeps :
      (now : ℕ) (message : RouteUpdateMessage F) (r : PeerRouter F)
      → P r
      → P (handle_route_update now message r)
  unfolding handle_route_update
  handle_route_update-keeps now message r v =
      elim (Bool-cases (message.source_peer_id == r.local_peer_id)) [
        | inl mine ↦ rw mine v
        | inr theirs ↦ elim (Bool-cases (leb max_hop_count message.hop_count)) [
          | inl far ↦ rw (theirs, far) v
          | inr near ↦
              rw (theirs, near)
                (count_change-keeps _ _
                  (apply_updates-keeps now message.source_peer_id message.peer_updates r v))
        ]
      ]
