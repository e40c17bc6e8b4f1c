-- ===== src/Manager.antt =====
-- `ConnectionManager`, src/network/connection_manager.cpp. A connection is a number. What a call does
-- to the connections is returned as a list of effects. What a connection object says of itself, its
-- remote address, port and endpoint and whether it is disconnected, is an argument, as are the times, the
-- endpoint string of a host and the answer of the network manager, which is another component.
pub mod Handshakes
pub mod Health
mod Runs
use hyper_share.Prelude.{
  ℕ, ◌+◌, ◌-◌, ◌%◌, ◌^◌, Bool, true, false, ◌&&◌, List, [], ◌∷◌, ◌++◌, map, Option, none, some, ltb,
  leb, ◌==◌, not, if◌then◌else◌,
}
use hyper_share.Wire.{Bytes}
use hyper_share.Maps.{nat_eq, bytes_beq, Map, find, insert, erase}
use hyper_share.Router.Double.{Double}
use hyper_share.Router.Table.{PeerRouter, new_router, add_direct_peer, remove_peer}
use hyper_share.Protocol.Handshake.{HandshakeMessage}
use hyper_share.Protocol.Heartbeat.{HeartbeatMessage}

pub data HandshakeState : Type 0 where
  not_started was_sent was_received completed has_failed : HandshakeState

pub record ConnectionInfo : Type 0 where
  pub connection : ℕ
  pub handshake_state : HandshakeState
  pub last_heartbeat : ℕ
  pub connected_at : ℕ
  pub peer_id : ℕ
  pub peer_name : Bytes
  pub capabilities : ℕ
  pub is_outgoing : Bool

-- `set_peer_id`, `send_message` with a handshake, its answer or a heartbeat, and `close`
pub data Effect : Type 0 where
  names : (connection peer_id : ℕ) → Effect
  sends_handshake sends_handshake_ack : (connection : ℕ) → HandshakeMessage → Effect
  sends_heartbeat : (connection : ℕ) → HeartbeatMessage → Effect
  closes : (connection : ℕ) → Effect

-- What the connection objects say of themselves.
pub record Remote : Type 0 where
  pub address : ℕ → Bytes
  pub port : ℕ → ℕ
  pub endpoint : ℕ → Bytes
  pub is_disconnected : ℕ → Bool

-- Times are in nanoseconds.
pub record ConnectionManager (F : Type 0) : Type 0 where
  pub local_peer_id : ℕ
  pub local_peer_name : Bytes
  pub local_tcp_port : ℕ
  pub connections : Map ℕ ConnectionInfo
  pub peer_connections : Map ℕ ℕ
  pub connecting_endpoints : List Bytes
  pub peer_router : Option (PeerRouter F)
  pub handshake_timeout : ℕ
  pub heartbeat_interval : ℕ
  pub connection_timeout : ℕ

abbrev pub is_completed : ConnectionInfo → Bool
is_completed info = elim info.handshake_state [ completed ↦ true | _ ↦ false ]

-- `connecting_endpoints_.count`, `insert` and `erase`
unfoldable pub is_listed : Bytes → List Bytes → Bool
is_listed x [] = false
is_listed x (y ∷ ys) = if bytes_beq x y then true else is_listed x ys

unfoldable pub unlist : Bytes → List Bytes → List Bytes
unlist x [] = []
unlist x (y ∷ ys) = let rest = unlist x ys in if bytes_beq x y then rest else y ∷ rest

unfoldable pub count_completed : Map ℕ ConnectionInfo → ℕ
count_completed [] = 0
count_completed ((c, info) ∷ rest) =
    let n = count_completed rest in if is_completed info then n + 1 else n

module _ {F : Type 0} where
  -- The constructor, with the peer number that it draws and the name that it makes of it.
  unfoldable pub new_manager : ℕ → Bytes → ConnectionManager F
  new_manager peer_id peer_name = record {
    local_peer_id = peer_id;
    local_peer_name = peer_name;
    local_tcp_port = 0;
    connections = [];
    peer_connections = [];
    connecting_endpoints = [];
    peer_router = none;
    handshake_timeout = 10000000000;
    heartbeat_interval = 30000000000;
    connection_timeout = 120000000000;
  }

  -- With whether the network manager gives a client.
  unfoldable pub connect_to_peer :
      (endpoint : Bytes) (connects : Bool) → ConnectionManager F → ConnectionManager F × Bool
  connect_to_peer endpoint connects m =
      if is_listed endpoint m.connecting_endpoints
      then (m, false)
      else if connects
      then (record m { connecting_endpoints = endpoint ∷ m.connecting_endpoints }, true)
      else (
        record m { connecting_endpoints = unlist endpoint (endpoint ∷ m.connecting_endpoints) },
        false,
      )

  abbrev pub drop_peer : ℕ → ConnectionManager F → Option ℕ → ConnectionManager F × List Effect
  drop_peer peer_id m none = (m, [])
  drop_peer peer_id m (some connection) = (
    record m {
      peer_connections = erase peer_id m.peer_connections;
      connections = erase connection m.connections;
    },
    closes connection ∷ [],
  )

  unfoldable pub disconnect_from_peer : ℕ → ConnectionManager F → ConnectionManager F × List Effect
  disconnect_from_peer peer_id m = drop_peer peer_id m (find peer_id m.peer_connections)

  unfoldable pub disconnect_all : ConnectionManager F → ConnectionManager F × List Effect
  disconnect_all m = (
    record m { connections = []; peer_connections = []; connecting_endpoints = [] },
    map (λ entry. closes entry.0) m.connections,
  )

  abbrev pub info_at : ConnectionManager F → Option ℕ → Option ConnectionInfo
  info_at m none = none
  info_at m (some connection) = find connection m.connections

  unfoldable pub get_connection_info : ℕ → ConnectionManager F → Option ConnectionInfo
  get_connection_info peer_id m = info_at m (find peer_id m.peer_connections)

  unfoldable pub handle_new_connection :
      Remote → (now connection : ℕ) → ConnectionManager F → ConnectionManager F
  handle_new_connection remote now connection m = record m {
    connections =
        insert connection
          (record {
            connection = connection;
            handshake_state = not_started;
            last_heartbeat = now;
            connected_at = now;
            peer_id = 0;
            peer_name = [];
            capabilities = 0;
            is_outgoing = false;
          })
          m.connections;
    connecting_endpoints = unlist (remote.endpoint connection) m.connecting_endpoints;
  }

  unfoldable pub handle_peer_discovered :
      (peer_id : ℕ) (endpoint : Bytes) (connects : Bool) → ConnectionManager F → ConnectionManager F
  handle_peer_discovered peer_id endpoint connects m =
      if peer_id == m.local_peer_id then m else elim (find peer_id m.peer_connections) [
        | some connection ↦ m
        | none ↦ (connect_to_peer endpoint connects m).0
      ]

  abbrev pub own_handshake : ConnectionManager F → HandshakeMessage
  own_handshake m = record {
    peer_id = m.local_peer_id;
    listen_port = m.local_tcp_port;
    peer_name = m.local_peer_name;
    capabilities = 0;
  }

  abbrev pub stamp :
      (now connection : ℕ) → ConnectionManager F → Option ConnectionInfo → ConnectionManager F
  stamp now connection m none = m
  stamp now connection m (some info) = record m {
    connections = insert connection (record info { last_heartbeat = now }) m.connections;
  }

  unfoldable pub handle_heartbeat : (now connection : ℕ) → ConnectionManager F → ConnectionManager F
  handle_heartbeat now connection m = stamp now connection m (find connection m.connections)

module _ {F : Type 0} ⦃d : Double F⦄ where
  abbrev pub join_router :
      Remote → (now peer_id connection : ℕ) → Option (PeerRouter F) → Option (PeerRouter F)
  join_router remote now peer_id connection none = none
  join_router remote now peer_id connection (some router) = some (
      add_direct_peer now peer_id (remote.address connection) (remote.port connection) connection
        router)

  -- What both handshake messages leave behind for a connection that is there.
  abbrev pub complete :
      Remote
      → (now connection : ℕ) → HandshakeMessage
      → ConnectionInfo
      → ConnectionManager F
      → ConnectionManager F
  complete remote now connection msg info m = record m {
    connections =
        insert connection
          (record info {
            peer_id = msg.peer_id;
            peer_name = msg.peer_name;
            capabilities = msg.capabilities;
            handshake_state = completed;
          })
          m.connections;
    peer_connections = insert msg.peer_id connection m.peer_connections;
    peer_router = join_router remote now msg.peer_id connection m.peer_router;
  }

  abbrev pub answer :
      Remote
      → (now connection : ℕ) → HandshakeMessage
      → ConnectionManager F
      → Option ConnectionInfo
      → ConnectionManager F × List Effect
  answer remote now connection msg m none = (m, [])
  answer remote now connection msg m (some info) = (
    complete remote now connection msg info m,
    names connection msg.peer_id ∷ sends_handshake_ack connection (own_handshake m) ∷ [],
  )

  unfoldable pub handle_handshake :
      Remote
      → (now connection : ℕ) → HandshakeMessage
      → ConnectionManager F
      → ConnectionManager F × List Effect
  handle_handshake remote now connection msg m =
      answer remote now connection msg m (find connection m.connections)

  abbrev pub accept :
      Remote
      → (now connection : ℕ) → HandshakeMessage
      → ConnectionManager F
      → Option ConnectionInfo
      → ConnectionManager F × List Effect
  accept remote now connection msg m none = (m, [])
  accept remote now connection msg m (some info) =
      (complete remote now connection msg info m, names connection msg.peer_id ∷ [])

  unfoldable pub handle_handshake_ack :
      Remote
      → (now connection : ℕ) → HandshakeMessage
      → ConnectionManager F
      → ConnectionManager F × List Effect
  handle_handshake_ack remote now connection msg m =
      accept remote now connection msg m (find connection m.connections)

  abbrev pub leave_router : ℕ → Option (PeerRouter F) → Option (PeerRouter F)
  leave_router peer_id none = none
  leave_router peer_id (some router) = some (remove_peer peer_id router)

  -- The loop of `cleanup_failed_connections`, over the entries that are left to look at.
  unfoldable pub cleanup_loop :
      Remote → Map ℕ ConnectionInfo → ConnectionManager F → ConnectionManager F
  cleanup_loop remote [] m = record m { connections = [] }
  cleanup_loop remote ((connection, info) ∷ rest) m =
      let forget = not (info.peer_id == 0) in
      let dropped =
        if forget
        then record m {
          peer_connections = erase info.peer_id m.peer_connections;
          peer_router = leave_router info.peer_id m.peer_router;
        }
        else m in
      let gone = remote.is_disconnected connection in
      let after = cleanup_loop remote rest (if gone then dropped else m) in
      if gone then after else record after { connections = (connection, info) ∷ after.connections }

  unfoldable pub cleanup_failed_connections : Remote → ConnectionManager F → ConnectionManager F
  cleanup_failed_connections remote m = cleanup_loop remote m.connections m

  unfoldable pub join_all : Remote → (now : ℕ) → Map ℕ ConnectionInfo → PeerRouter F → PeerRouter F
  join_all remote now [] router = router
  join_all remote now ((connection, info) ∷ rest) router = join_all remote now rest (
      if is_completed info
      then add_direct_peer now info.peer_id (remote.address connection) (remote.port connection)
          connection router
      else router)

  unfoldable pub enable_routing : Remote → (now : ℕ) → ConnectionManager F → ConnectionManager F
  enable_routing remote now m = elim m.peer_router [
    | some router ↦ m
    | none ↦ record m {
      peer_router = some (join_all remote now m.connections (new_router m.local_peer_id));
    }
  ]

  unfoldable pub disable_routing : ConnectionManager F → ConnectionManager F
  disable_routing m = record m { peer_router = none }
