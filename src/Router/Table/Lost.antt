-- ===== src/Router/Table/Lost.antt =====
-- Which routes a departure takes away, and what updates then do: src/network/peer_router.cpp.
use hyper_share.Prelude.{
  ℕ, ◌≤◌, ◌≡◌, ◌≢◌, refl, Bool, List, [], ◌∷◌, Option, none, some, arith, length, if◌then◌else◌,
  ◌==◌, ==_iff, max,
}
use hyper_share.Maps.{
  nat_eq, find, erase, find-insert, find-erase, find-erase_if, erase-IsMap, length-insert-le,
}
use hyper_share.Router.Double.{Double}
use hyper_share.Router.Table.{
  PeerRouter, RouteEntry, remove_peer, handle_route_update, learned_peer, learned_route,
  get_next_hop,
}
use hyper_share.Router.RouteUpdate.{RoutingPeerInfo, RouteUpdateMessage}
use hyper_share.Router.Table.Finds.{Applied, ignored, learned, handle_route_update-keeps}
use hyper_share.Router.Table.Invariant.{Reach, Reach-IsRouting}

-- The next hop that is left when a peer has gone.
unfoldable pub unless_through : (peer_id : ℕ) → Option ℕ → Option ℕ
unless_through peer_id none = none
unless_through peer_id (some hop) = if hop == peer_id then none else some hop

-- One update after another, each at its own time.
unfoldable pub handle_route_updates :
    {F : Type 0} ⦃d : Double F⦄ → List (ℕ × RouteUpdateMessage F) → PeerRouter F → PeerRouter F
handle_route_updates [] r = r
handle_route_updates ((now, message) ∷ rest) r =
    handle_route_updates rest (handle_route_update now message r)

module _ {F : Type 0} ⦃d : Double F⦄ where
  -- In every state that a router reaches: when a peer is removed, there is no next hop to it, and
  -- the next hop to another peer is the one that there was, unless that was the removed peer; then
  -- there is none.
  pub get_next_hop-remove_peer :
      (own now k gone : ℕ) (r : PeerRouter F)
      → Reach own r
      → get_next_hop now k (remove_peer gone r)
        ≡ (if gone == k then none else unless_through gone (get_next_hop now k r))
  unfolding get_next_hop remove_peer unless_through
  get_next_hop-remove_peer own now k gone r reached =
      let v = Reach-IsRouting own r reached in
      let relayed : RouteEntry F → Bool = λ x. x.next_hop_peer_id == gone in
      let left =
        find-erase_if relayed k (erase gone r.routing_table)
          (erase-IsMap gone r.routing_table v.routes_IsMap) in
      ground (arith, left, find-erase gone k r.routing_table)

  -- A peer that is known and has no route: what an update does not change.
  abbrev pub IsStranded : ℕ → PeerRouter F → Type 0
  IsStranded k r = (find k r.known_peers ≢ none) × (find k r.routing_table ≡ none)

  Applied-IsStranded :
      (k now source : ℕ) (u : RoutingPeerInfo F) (r : PeerRouter F) (done : PeerRouter F × Bool)
      → Applied now source u r done
      → IsStranded k r
      → IsStranded k done.0
  Applied-IsStranded k now source u r done ignored s = s
  Applied-IsStranded k now source u r done (learned n ne near room better) (known, routeless) =
      ground (
        arith,
        known,
        routeless,
        better,
        ==_iff u.peer_id k,
        find-insert u.peer_id k (learned_peer source n u) r.known_peers,
        find-insert u.peer_id k (learned_route now source n u) r.routing_table,
      )

  handle_route_updates-IsStranded :
      (k : ℕ) (messages : List (ℕ × RouteUpdateMessage F)) (r : PeerRouter F)
      → IsStranded k r
      → IsStranded k (handle_route_updates messages r)
  unfolding handle_route_updates
  handle_route_updates-IsStranded k [] r s = s
  handle_route_updates-IsStranded k ((now, message) ∷ rest) r s =
      handle_route_updates-IsStranded k rest (handle_route_update now message r) (
        handle_route_update-keeps (IsStranded k) (Applied-IsStranded k) (λ r n h. h) now message r
          s)

  -- In every state that a router reaches: when a peer leaves, a peer that was reached through it has no
  -- next hop any more, and no route updates give it one again, however many come, from whomever and
  -- at whatever times.
  pub get_next_hop-handle_route_updates :
      (own now k gone : ℕ) (route : RouteEntry F) (messages : List (ℕ × RouteUpdateMessage F))
      (r : PeerRouter F)
      → Reach own r
      → k ≢ gone
      → find k r.routing_table ≡ some route
      → route.next_hop_peer_id ≡ gone
      → get_next_hop now k (handle_route_updates messages (remove_peer gone r)) ≡ none
  unfolding get_next_hop remove_peer
  get_next_hop-handle_route_updates own now k gone route messages r reached ne found through =
      let v = Reach-IsRouting own r reached in
      let relayed : RouteEntry F → Bool = λ x. x.next_hop_peer_id == gone in
      let left =
        find-erase_if relayed k (erase gone r.routing_table)
          (erase-IsMap gone r.routing_table v.routes_IsMap) in
      let (known, routeless) = handle_route_updates-IsStranded k messages (remove_peer gone r) (
        ground (arith, v.known k, found, find-erase gone k r.known_peers, ==_iff gone k, ne),
        ground (arith, left, found, through, find-erase gone k r.routing_table, ==_iff gone k, ne),
      ) in
      rw routeless refl

  Applied-length :
      (bound : ℕ)
      → 10000 ≤ bound
      → (now source : ℕ) (u : RoutingPeerInfo F) (r : PeerRouter F) (done : PeerRouter F × Bool)
      → Applied now source u r done
      → length r.routing_table ≤ bound
      → length done.0.routing_table ≤ bound
  Applied-length bound b now source u r done ignored h = h
  Applied-length bound b now source u r done (learned n ne near room better) h =
      omega (arith, length-insert-le u.peer_id (learned_route now source n u) r.routing_table, room)

  -- Route updates never fill the table beyond its 10000 entries, or beyond what it holds.
  pub length-handle_route_update :
      (now : ℕ) (message : RouteUpdateMessage F) (r : PeerRouter F)
      → length (handle_route_update now message r).routing_table
        ≤ max 10000 (length r.routing_table)
  length-handle_route_update now message r =
      handle_route_update-keeps (λ x. length x.routing_table ≤ max 10000 (length r.routing_table))
        (Applied-length (max 10000 (length r.routing_table)) (omega arith)) (λ x n h. h) now message
        r (omega arith)
