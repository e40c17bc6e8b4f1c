-- ===== src/Router/Table/Progress.antt =====
-- A route update only brings routes that are as short: `handle_route_update` of
-- src/network/peer_router.cpp.
use hyper_share.Prelude.{
  ℕ, ◌≤◌, ◌≡◌, ◌≢◌, refl, Bool, true, Option, none, some, inl, inr, Bool-cases, arith, ◌==◌,
}
use hyper_share.Maps.{nat_eq, find, find-insert}
use hyper_share.Router.Double.{Double}
use hyper_share.Router.RouteUpdate.{RoutingPeerInfo, RouteUpdateMessage}
use hyper_share.Router.Table.{
  PeerRouter, RouteEntry, handle_route_update, should_update, learned_peer, learned_route,
}
use hyper_share.Router.Table.Finds.{Applied, ignored, learned, handle_route_update-keeps}
use hyper_share.Router.Table.Invariant.{Reach, Reach-IsRouting}

better_hops :
    {F : Type 0} ⦃d : Double F⦄ {hops : ℕ} (n : ℕ) (u : RoutingPeerInfo F)
    (known : Option (RoutingPeerInfo F)) (stored : Option (RouteEntry F)) (route : RouteEntry F)
    → should_update n u known stored ≡ true
    → known ≢ none
    → stored ≡ some route
    → route.hop_count ≤ hops
    → n ≤ hops
better_hops n u none stored route better is_known found short = absurd (is_known refl)
better_hops n u (some peer) none route better is_known found short = cc
better_hops n u (some peer) (some old) route better is_known found short =
    ground (arith, better, found, short)

module _ {F : Type 0} ⦃d : Double F⦄ (k : ℕ) (hops : ℕ) where
  -- A route to `k` of at most `hops` hops, to a known peer.
  abbrev IsNear : PeerRouter F → Type 0
  IsNear r =
      (find k r.known_peers ≢ none)
      × (route : RouteEntry F) × (find k r.routing_table ≡ some route)
      × (route.hop_count ≤ hops)

  Applied-IsNear :
      (now source : ℕ) (u : RoutingPeerInfo F) (r : PeerRouter F) (done : PeerRouter F × Bool)
      → Applied now source u r done
      → IsNear r
      → IsNear done.0
  Applied-IsNear now source u r done ignored h = h
  Applied-IsNear now source u r done (learned n ne near room better) (known, route, found, short) =
      let peer_found = find-insert u.peer_id k (learned_peer source n u) r.known_peers in
      let route_found = find-insert u.peer_id k (learned_route now source n u) r.routing_table in
      elim (Bool-cases (u.peer_id == k)) [
        | inl same ↦ (
          ground (arith, peer_found, same),
          learned_route now source n u,
          ground (arith, route_found, same),
          better_hops n u _ _ route better (ground (arith, known, same))
              (ground (arith, found, same)) short,
        )
        | inr other ↦ (
          ground (arith, peer_found, other, known),
          route,
          ground (arith, route_found, other, found),
          short,
        )
      ]

module _ {F : Type 0} ⦃d : Double F⦄ where
  -- In every state that a router reaches: after a route update, whatever it says, there is a route to every
  -- peer to which there was one, and it has at most as many hops.
  pub hop_count-handle_route_update :
      (own now k : ℕ) (message : RouteUpdateMessage F) (r : PeerRouter F) (route : RouteEntry F)
      → Reach own r
      → find k r.routing_table ≡ some route
      → (new : RouteEntry F) × (find k (handle_route_update now message r).routing_table ≡ some new)
        × (new.hop_count ≤ route.hop_count)
  hop_count-handle_route_update own now k message r route reached found =
      let v = Reach-IsRouting own r reached in
      let (known, new, found', short) =
        handle_route_update-keeps (IsNear k route.hop_count) (Applied-IsNear k route.hop_count)
          (λ r n h. h) now message r
          (ground (arith, v.known k, found), route, found, omega arith) in
      (new, found', short)
