-- ===== src/Manager/Health.antt =====
-- `check_connection_health` of src/network/connection_manager.cpp and what it calls, with the mutex
-- of the connections. A call that locks the mutex while the same thread holds it does not return: that is
-- `none`. The standard leaves such a call undefined; the C++ libraries block.
use hyper_share.Prelude.{
  ℕ, ◌-◌, ◌%◌, ◌^◌, Bool, true, List, [], ◌∷◌, ◌++◌, Option, none, some, ltb, leb, if◌then◌else◌,
}
use hyper_share.Maps.{nat_eq, Map, find, insert}
use hyper_share.Manager.{
  ConnectionManager, ConnectionInfo, HandshakeState, not_started, was_sent, completed, Effect,
  sends_handshake, sends_heartbeat, closes, count_completed, own_handshake,
}

abbrev pub and_then : {A B : Type 0} → Option A → (A → Option B) → Option B
and_then none f = none
and_then (some a) f = f a

module _ {F : Type 0} where
  unfoldable pub get_connection_count : (is_held : Bool) → ConnectionManager F → Option ℕ
  get_connection_count is_held m = if is_held then none else some (count_completed m.connections)

  unfoldable pub send_heartbeat :
      (is_held : Bool) (timestamp connection : ℕ) → ConnectionManager F → Option (List Effect)
  send_heartbeat is_held timestamp connection m =
      and_then (get_connection_count is_held m) (λ count. some (
        sends_heartbeat connection (record {
          timestamp = timestamp % 2 ^ 64;
          active_connections = count % 2 ^ 32;
          available_files = 0;
        })
        ∷ []))

  abbrev pub mark_sent : ℕ → ConnectionManager F → Option ConnectionInfo → ConnectionManager F
  mark_sent connection m none = m
  mark_sent connection m (some info) = record m {
    connections = insert connection (record info { handshake_state = was_sent }) m.connections;
  }

  unfoldable pub send_handshake :
      (is_held : Bool) (connection : ℕ)
      → ConnectionManager F
      → Option (ConnectionManager F × List Effect)
  send_handshake is_held connection m =
      if is_held
      then none
      else some (
        mark_sent connection m (find connection m.connections),
        sends_handshake connection (own_handshake m) ∷ [],
      )

  abbrev pub heartbeat_due : (now : ℕ) → ConnectionManager F → ConnectionInfo → Bool
  heartbeat_due now m info = leb m.heartbeat_interval (now - info.last_heartbeat)

  abbrev pub timed_out : (now : ℕ) → ConnectionManager F → ConnectionInfo → Bool
  timed_out now m info = ltb m.connection_timeout (now - info.last_heartbeat)

  -- The branches of the loop's body.
  unfoldable pub check_completed :
      (is_held : Bool) (now timestamp connection : ℕ)
      → ConnectionInfo
      → ConnectionManager F
      → Option (ConnectionManager F × List Effect)
  check_completed is_held now timestamp connection info m =
      let closing = if timed_out now m info then closes connection ∷ [] else [] in
      if heartbeat_due now m info
      then and_then (send_heartbeat is_held timestamp connection m)
          (λ sent. some (m, sent ++ closing))
      else some (m, closing)

  unfoldable pub check_entry :
      (is_held : Bool) (now timestamp connection : ℕ)
      → ConnectionInfo
      → HandshakeState
      → ConnectionManager F
      → Option (ConnectionManager F × List Effect)
  check_entry is_held now timestamp connection info completed m =
      check_completed is_held now timestamp connection info m
  check_entry is_held now timestamp connection info not_started m =
      if ltb 1000000000 (now - info.connected_at)
      then send_handshake is_held connection m
      else some (m, [])
  check_entry is_held now timestamp connection info was_sent m =
      if ltb m.handshake_timeout (now - info.connected_at)
      then some (m, closes connection ∷ [])
      else some (m, [])
  check_entry is_held now timestamp connection info state m = some (m, [])

  unfoldable pub check_loop :
      (is_held : Bool) (now timestamp : ℕ)
      → Map ℕ ConnectionInfo
      → ConnectionManager F
      → Option (ConnectionManager F × List Effect)
  check_loop is_held now timestamp [] m = some (m, [])
  check_loop is_held now timestamp ((connection, info) ∷ rest) m =
      and_then (check_entry is_held now timestamp connection info info.handshake_state m)
        (λ (m', done).
          and_then (check_loop is_held now timestamp rest m')
            (λ (m'', later). some (m'', done ++ later)))

  -- The mutex is held all through the loop.
  unfoldable pub check_connection_health :
      (now timestamp : ℕ) → ConnectionManager F → Option (ConnectionManager F × List Effect)
  check_connection_health now timestamp m = check_loop true now timestamp m.connections m
