-- ===== src/Manager/Handshakes.antt =====
-- Which connections `ConnectionManager` of src/network/connection_manager.cpp knows.
use hyper_share.Prelude.{
  some_injective, true, sym, ◌∙◌, ℕ, ◌≡◌, ◌≢◌, refl, ap, subst, Bool, false, List, [], ◌∷◌, Option,
  none, some, inl, inr, if◌then◌else◌, arith, Bool-cases, Option-cases, ◌==◌, ==_iff, ==_refl,
}
use hyper_share.Wire.{Bytes}
use hyper_share.Maps.{nat_eq, Map, find, find-insert, find-erase}
use hyper_share.Router.Double.{Double}
use hyper_share.Router.Table.{RouteEntry, PeerRouter, add_direct_peer, get_next_hop, is_expired}
use hyper_share.Protocol.Handshake.{HandshakeMessage}
use hyper_share.Manager.{
  join_router, ConnectionManager, ConnectionInfo, completed, Effect, names, sends_handshake_ack,
  Remote, new_manager, connect_to_peer, disconnect_from_peer, disconnect_all, get_connection_info,
  handle_peer_discovered, handle_heartbeat, handle_handshake, handle_handshake_ack, own_handshake,
  cleanup_failed_connections, cleanup_loop, enable_routing, disable_routing,
}
use hyper_share.Manager.Health.{check_connection_health, check_loop}

-- The calls that the class makes or lets others make: its public operations, the handlers that
-- `start` registers and the two calls of the health thread. `handle_new_connection` is not among them:
-- it is private, and nothing in the class calls or registers it.
pub data Step {F : Type 0} ⦃d : Double F⦄ (m : ConnectionManager F)
    : ConnectionManager F → Type 0 where
  connects : (endpoint : Bytes) (is_client : Bool) → Step m (connect_to_peer endpoint is_client m).0
  disconnects : (peer_id : ℕ) → Step m (disconnect_from_peer peer_id m).0
  disconnects_all : Step m (disconnect_all m).0
  discovers :
      (peer_id : ℕ) (endpoint : Bytes) (is_client : Bool)
      → Step m (handle_peer_discovered peer_id endpoint is_client m)
  hears_handshake :
      (remote : Remote) (now connection : ℕ) (msg : HandshakeMessage)
      → Step m (handle_handshake remote now connection msg m).0
  hears_ack :
      (remote : Remote) (now connection : ℕ) (msg : HandshakeMessage)
      → Step m (handle_handshake_ack remote now connection msg m).0
  hears_heartbeat : (now connection : ℕ) → Step m (handle_heartbeat now connection m)
  checks :
      (now timestamp : ℕ) (m' : ConnectionManager F) (done : List Effect)
      → check_connection_health now timestamp m ≡ some (m', done)
      → Step m m'
  cleans : (remote : Remote) → Step m (cleanup_failed_connections remote m)
  routes : (remote : Remote) (now : ℕ) → Step m (enable_routing remote now m)
  unroutes : Step m (disable_routing m)

pub data Reach {F : Type 0} ⦃d : Double F⦄ : ConnectionManager F → Type 0 where
  starts : (peer_id : ℕ) (peer_name : Bytes) → Reach (new_manager peer_id peer_name)
  steps : (m m' : ConnectionManager F) → Reach m → Step m m' → Reach m'

module _ {F : Type 0} ⦃d : Double F⦄ where
  abbrev IsEmpty : ConnectionManager F → Type 0
  IsEmpty m = (m.connections ≡ []) × (m.peer_connections ≡ [])

  connect_to_peer-IsEmpty :
      (endpoint : Bytes) (b : Bool) (m : ConnectionManager F)
      → IsEmpty m
      → IsEmpty (connect_to_peer endpoint b m).0
  unfolding connect_to_peer
  connect_to_peer-IsEmpty endpoint b m (c, p) = ground (arith, c, p)

  check_connection_health_unchanged :
      (now timestamp : ℕ) (m m' : ConnectionManager F) (done : List Effect)
      → m.connections ≡ []
      → check_connection_health now timestamp m ≡ some (m', done)
      → m ≡ m'
  unfolding check_connection_health check_loop
  check_connection_health_unchanged now timestamp m m' done none_known h =
      let idle : check_loop true now timestamp m.connections m ≡ some (m, []) =
        ap (λ entries. check_loop true now timestamp entries m) none_known in
      ap (λ r. r.0) (some_injective (sym idle ∙ h))

  Step-IsEmpty : (m m' : ConnectionManager F) → Step m m' → IsEmpty m → IsEmpty m'
  unfolding disconnect_from_peer disconnect_all handle_peer_discovered handle_handshake
      handle_handshake_ack handle_heartbeat cleanup_failed_connections cleanup_loop enable_routing
      disable_routing find
  Step-IsEmpty m m' (connects endpoint b) e = connect_to_peer-IsEmpty endpoint b m e
  Step-IsEmpty m m' (disconnects peer_id) (c, p) = rw p (c, refl)
  Step-IsEmpty m m' disconnects_all e = (refl, refl)
  Step-IsEmpty m m' (discovers peer_id endpoint b) (c, p) =
      elim (Bool-cases (peer_id == m.local_peer_id)) [
        | inl own ↦ rw own (c, p)
        | inr other ↦ rw (other, p) (connect_to_peer-IsEmpty endpoint b m (c, p))
      ]
  Step-IsEmpty m m' (hears_handshake remote now connection msg) (c, p) = rw c (refl, p)
  Step-IsEmpty m m' (hears_ack remote now connection msg) (c, p) = rw c (refl, p)
  Step-IsEmpty m m' (hears_heartbeat now connection) (c, p) = rw c (refl, p)
  Step-IsEmpty m m' (checks now timestamp m'' done h) (c, p) =
      subst IsEmpty (check_connection_health_unchanged now timestamp m m'' done c h) (c, p)
  Step-IsEmpty m m' (cleans remote) (c, p) = rw c (refl, p)
  Step-IsEmpty m m' (routes remote now) (c, p) = elim (Option-cases m.peer_router) [
    | inl off ↦ rw off (c, p)
    | inr (router, on) ↦ rw on (c, p)
  ]
  Step-IsEmpty m m' unroutes e = e

  -- No connection is ever known: in every state that the calls of the class reach, the two maps of
  -- connections are empty, so that every handshake and every heartbeat is ignored.
  pub Reach-connections :
      (m : ConnectionManager F) → Reach m → (m.connections ≡ []) × (m.peer_connections ≡ [])
  unfolding new_manager
  Reach-connections m (starts peer_id peer_name) = (refl, refl)
  Reach-connections m (steps before m' reached step) =
      Step-IsEmpty before m' step (Reach-connections before reached)

  abbrev pub next_hop_to : (now peer_id : ℕ) → Option (PeerRouter F) → Option ℕ
  next_hop_to now peer_id none = none
  next_hop_to now peer_id (some router) = get_next_hop now peer_id router

  -- A number, where routing is enabled.
  abbrev pub if_routed : Option (PeerRouter F) → ℕ → Option ℕ
  if_routed none peer_id = none
  if_routed (some router) peer_id = some peer_id

  next_hop_to-join_router :
      (remote : Remote) (now peer_id connection : ℕ) (router : Option (PeerRouter F))
      → next_hop_to now peer_id (join_router remote now peer_id connection router)
        ≡ if_routed router peer_id
  unfolding get_next_hop add_direct_peer
  next_hop_to-join_router remote now peer_id connection none = refl
  next_hop_to-join_router remote now peer_id connection (some router) =
      let found =
        λ (route : RouteEntry F). find-insert peer_id peer_id route router.routing_table in
      let fresh : is_expired now now ≡ false = ground arith in
      rw (found _, ==_refl peer_id, fresh) refl

  -- A handshake on a connection that is known completes it: the peer's entry is this connection's,
  -- with the peer's data and a completed handshake, the connection is given the peer's number and
  -- an answer, and where routing is enabled the peer is its own next hop.
  pub get_connection_info-handle_handshake :
      (remote : Remote) (now connection : ℕ) (msg : HandshakeMessage) (info : ConnectionInfo)
      (m : ConnectionManager F)
      → find connection m.connections ≡ some info
      → (get_connection_info msg.peer_id (handle_handshake remote now connection msg m).0
          ≡ some (record info {
            peer_id = msg.peer_id;
            peer_name = msg.peer_name;
            capabilities = msg.capabilities;
            handshake_state = completed;
          }))
        × ((handle_handshake remote now connection msg m).1
            ≡ names connection msg.peer_id ∷ sends_handshake_ack connection (own_handshake m) ∷ [])
        × (next_hop_to now msg.peer_id (handle_handshake remote now connection msg m).0.peer_router
            ≡ if_routed m.peer_router msg.peer_id)
  unfolding handle_handshake get_connection_info
  get_connection_info-handle_handshake remote now connection msg info m found =
      let peers = find-insert msg.peer_id msg.peer_id connection m.peer_connections in
      let own = λ (new : ConnectionInfo). find-insert connection connection new m.connections in
      (
        rw (found, peers, ==_refl msg.peer_id, own _, ==_refl connection) refl,
        rw found refl,
        rw found (next_hop_to-join_router remote now msg.peer_id connection m.peer_router),
      )

  -- After a call to disconnect it, a peer has no connection, and another peer on another connection has
  -- the one that it had.
  pub get_connection_info-disconnect_from_peer :
      (peer_id other : ℕ) (m : ConnectionManager F)
      → other ≢ peer_id
      → find other m.peer_connections ≢ find peer_id m.peer_connections
      → (get_connection_info peer_id (disconnect_from_peer peer_id m).0 ≡ none)
        × (get_connection_info other (disconnect_from_peer peer_id m).0
            ≡ get_connection_info other m)
  unfolding disconnect_from_peer get_connection_info
  get_connection_info-disconnect_from_peer peer_id other m ne apart =
      elim (Option-cases (find peer_id m.peer_connections)) [
        | inl absent ↦ (rw (absent, absent) refl, rw absent refl)
        | inr (c, known) ↦
            let own = find-erase peer_id peer_id m.peer_connections in
            let kept = find-erase peer_id other m.peer_connections in
            let differs : (peer_id == other) ≡ false = ground (arith, ne) in
            (
              rw (known, own, ==_refl peer_id) refl,
              elim (Option-cases (find other m.peer_connections)) [
                | inl missing ↦ rw (known, kept, differs, missing) refl
                | inr (c', there) ↦
                    rw (known, kept, differs, there, find-erase c c' m.connections)
                      (ground (arith, ==_iff c c', apart, known, there))
              ],
            )
      ]

  find-cleanup_loop :
      (remote : Remote) (k : ℕ) (entries : Map ℕ ConnectionInfo) (m : ConnectionManager F)
      → find k (cleanup_loop remote entries m).connections
        ≡ (if remote.is_disconnected k then none else find k entries)
  unfolding cleanup_loop find
  find-cleanup_loop remote k [] m = ground arith
  find-cleanup_loop remote k ((connection, info) ∷ rest) m =
      elim (Bool-cases (remote.is_disconnected connection)) [
        | inl gone ↦
            rw (gone, find-cleanup_loop remote k rest _)
              (ground (
                arith,
                gone,
                ==_iff connection k,
                ap remote.is_disconnected {x = connection} {y = k},
              ))
        | inr open_ ↦
            rw (open_, find-cleanup_loop remote k rest m)
              (ground (
                arith,
                open_,
                ==_iff connection k,
                ap remote.is_disconnected {x = connection} {y = k},
              ))
      ]

  -- The cleanup keeps just the connections that are not disconnected, each with its entry.
  pub find-cleanup_failed_connections :
      (remote : Remote) (k : ℕ) (m : ConnectionManager F)
      → find k (cleanup_failed_connections remote m).connections
        ≡ (if remote.is_disconnected k then none else find k m.connections)
  unfolding cleanup_failed_connections
  find-cleanup_failed_connections remote k m = find-cleanup_loop remote k m.connections m
