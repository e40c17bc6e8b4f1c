-- ===== src/Crypto/Nonces.antt =====
-- `NonceManager` of src/crypto/encryption.cpp. A nonce is its 12 bytes; the last four of an outgoing
-- one are random and an argument. A `std::set` is the ascending list of its elements. Counters are
-- 64-bit unsigned numbers.
pub mod Window
pub mod Replay
use hyper_share.Prelude.{
  ℕ, zero, suc, ◌+◌, ◌-◌, ◌*◌, ◌%◌, ◌^◌, Bool, true, false, List, [], ◌∷◌, ◌++◌, Option, none, some,
  ltb, leb, ◌==◌, if◌then◌else◌, max, get_or,
}
use hyper_share.Maps.{nat_eq, Map, find, insert, erase}
use hyper_share.Wire.{Bytes, byte_at}

pub record PeerNonceState : Type 0 where
  pub highest_seen : ℕ
  pub recent_nonces : List ℕ

abbrev pub new_state : PeerNonceState
new_state = record { highest_seen = 0; recent_nonces = [] }

pub record NonceManager : Type 0 where
  pub peer_states : Map ℕ PeerNonceState
  pub outgoing_counter : ℕ
  pub window_size : ℕ

unfoldable pub new_nonce_manager : NonceManager
new_nonce_manager = record { peer_states = []; outgoing_counter = 1; window_size = 1000 }

-- The first eight bytes, the lowest first; a missing byte is no bit.
unfoldable pub nonce_to_uint64 : Bytes → ℕ
nonce_to_uint64 nonce =
    get_or nonce 0 0
    + get_or nonce 1 0 * 2 ^ 8
    + get_or nonce 2 0 * 2 ^ 16
    + get_or nonce 3 0 * 2 ^ 24
    + get_or nonce 4 0 * 2 ^ 32
    + get_or nonce 5 0 * 2 ^ 40
    + get_or nonce 6 0 * 2 ^ 48
    + get_or nonce 7 0 * 2 ^ 56

unfoldable pub uint64_to_nonce : ℕ → Bytes → Bytes
uint64_to_nonce value random_bytes =
    byte_at value 0
    ∷ byte_at value 8
    ∷ byte_at value 16
    ∷ byte_at value 24
    ∷ byte_at value 32
    ∷ byte_at value 40
    ∷ byte_at value 48
    ∷ byte_at value 56
    ∷ random_bytes

unfoldable pub generate_outgoing_nonce : Bytes → NonceManager → NonceManager × Bytes
generate_outgoing_nonce random_bytes m = (
  record m { outgoing_counter = (m.outgoing_counter + 1) % 2 ^ 64 },
  uint64_to_nonce m.outgoing_counter random_bytes,
)

-- `std::set::count` and `std::set::insert`
unfoldable pub is_member : ℕ → List ℕ → Bool
is_member x [] = false
is_member x (y ∷ ys) = if x == y then true else is_member x ys

unfoldable pub set_insert : ℕ → List ℕ → List ℕ
set_insert x [] = x ∷ []
set_insert x (y ∷ ys) =
    if ltb x y then x ∷ y ∷ ys else if x == y then y ∷ ys else y ∷ set_insert x ys

-- `while (it != end() && *it < cutoff) it = erase(it)`
unfoldable pub drop_below : ℕ → List ℕ → List ℕ
drop_below cutoff [] = []
drop_below cutoff (y ∷ ys) =
    let rest = drop_below cutoff ys in if ltb y cutoff then rest else y ∷ ys

abbrev pub cutoff_of : (window_size highest : ℕ) → ℕ
cutoff_of window_size highest = if ltb window_size highest then highest - window_size else 0

-- The body of `verify_incoming_nonce`, on the state of the peer.
unfoldable pub verify_nonce : (window_size value : ℕ) → PeerNonceState → PeerNonceState × Bool
verify_nonce window_size value st =
    if is_member value st.recent_nonces
    then (st, false)
    else if ltb ((value + window_size) % 2 ^ 64) st.highest_seen
    then (st, false)
    else (let highest = max st.highest_seen value in
        (
          record {
            highest_seen = highest;
            recent_nonces =
                drop_below (cutoff_of window_size highest) (set_insert value st.recent_nonces);
          },
          true,
        ))

-- `peer_states[peer_id]`, which makes a new state for a new peer.
abbrev pub or_new : Option PeerNonceState → PeerNonceState
or_new none = new_state
or_new (some st) = st

abbrev pub state_of : ℕ → Map ℕ PeerNonceState → PeerNonceState
state_of peer_id states = or_new (find peer_id states)

unfoldable pub verify_incoming_nonce : Bytes → ℕ → NonceManager → NonceManager × Bool
verify_incoming_nonce nonce peer_id m =
    let (st, accepted) =
      verify_nonce m.window_size (nonce_to_uint64 nonce) (state_of peer_id m.peer_states) in
    (record m { peer_states = insert peer_id st m.peer_states }, accepted)

unfoldable pub reset_peer_nonces : ℕ → NonceManager → NonceManager
reset_peer_nonces peer_id m = record m { peer_states = erase peer_id m.peer_states }
