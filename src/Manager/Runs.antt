-- ===== src/Manager/Runs.antt =====
-- Runs of a connection manager. Its router's scores are whole numbers here.
use hyper_share.Prelude.{ℕ, ◌≡◌, true, [], ◌∷◌}
use hyper_share.Maps.{nat_eq}
use hyper_share.Router.Double.{whole_scores}
use hyper_share.Manager.{ConnectionManager, new_manager, connect_to_peer}
use hyper_share.Manager.Handshakes.{starts, steps, connects, Reach-connections}

abbrev m0 : ConnectionManager ℕ
m0 = new_manager 1 (b'a' ∷ [])

Reach-connections_example :
    ((connect_to_peer (b'h' ∷ []) true m0).0.connections ≡ [])
    × ((connect_to_peer (b'h' ∷ []) true m0).0.peer_connections ≡ [])
Reach-connections_example =
    Reach-connections _ (steps m0 _ (starts 1 (b'a' ∷ [])) (connects (b'h' ∷ []) true))
