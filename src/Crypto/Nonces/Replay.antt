-- ===== src/Crypto/Nonces/Replay.antt =====
-- Replay protection over the whole life of a nonce manager.
use hyper_share.Prelude.{
  ℕ, ◌+◌, ◌^◌, ◌<◌, ◌≡◌, ap, ◌∙◌, false, List, [], ◌∷◌, ◌==◌, if◌then◌else◌, arith, Bool-cases, inl,
  inr,
}
use hyper_share.Maps.{nat_eq, Map, find, insert, find-insert}
use hyper_share.Wire.{Bytes}
use hyper_share.Crypto.Nonces.{
  PeerNonceState, NonceManager, new_nonce_manager, or_new, nonce_to_uint64, uint64_to_nonce,
  is_member, verify_nonce, state_of, verify_incoming_nonce,
}
use hyper_share.Crypto.Nonces.Window.{
  accepts, Refines, logged, verify_nonce-Refines, verify_nonce-accepts, new_state-Refines,
}

-- The specification of the manager: a log for each peer.
abbrev pub Logs : Type 0
Logs = ℕ → List ℕ

abbrev pub log_at : ℕ → List ℕ → Logs → Logs
log_at peer_id log logs p = if peer_id == p then log else logs p

-- A manager keeps the window of every peer's log.
pub record Keeps (m : NonceManager) (logs : Logs) : Type 0 where
  pub refines : (p : ℕ) → Refines m.window_size (state_of p m.peer_states) (logs p)

-- The arrivals, each a nonce with the peer that sent it, and the logs of what was accepted.
abbrev pub verify_one : Bytes × ℕ → NonceManager × Logs → NonceManager × Logs
verify_one (nonce, peer_id) (m, logs) =
    let (m', accepted) = verify_incoming_nonce nonce peer_id m in
    (m', log_at peer_id (logged accepted (nonce_to_uint64 nonce) (logs peer_id)) logs)

abbrev pub verify_all : List (Bytes × ℕ) → NonceManager × Logs → NonceManager × Logs
verify_all [] st = st
verify_all (a ∷ arrivals) st = verify_all arrivals (verify_one a st)

state_of-insert :
    (peer_id p : ℕ) (st : PeerNonceState) (states : Map ℕ PeerNonceState)
    → state_of p (insert peer_id st states) ≡ (if peer_id == p then st else state_of p states)
state_of-insert peer_id p st states =
    ap or_new (find-insert peer_id p st states)
    ∙ (elim (Bool-cases (peer_id == p)) [ inl same ↦ rw same | inr other ↦ rw other ])

verify_one-Keeps :
    (nonce : Bytes) (peer_id : ℕ) (m : NonceManager) (logs : Logs)
    → Keeps m logs
    → let r = verify_one (nonce, peer_id) (m, logs) in Keeps r.0 r.1
unfolding verify_incoming_nonce
verify_one-Keeps nonce peer_id m logs k =
    let v : ℕ = nonce_to_uint64 nonce in
    let (_, step) =
      verify_nonce-Refines m.window_size v (state_of peer_id m.peer_states) (logs peer_id)
        (k.refines peer_id) in
    record {
      refines = λ p. elim (Bool-cases (peer_id == p)) [
        | inl same ↦ rw (state_of-insert peer_id p, same) step
        | inr other ↦ rw (state_of-insert peer_id p, other) (k.refines p)
      ];
    }

verify_all-Keeps :
    (arrivals : List (Bytes × ℕ)) (m : NonceManager) (logs : Logs)
    → Keeps m logs
    → let r = verify_all arrivals (m, logs) in Keeps r.0 r.1
verify_all-Keeps [] m logs k = k
verify_all-Keeps ((nonce, peer_id) ∷ arrivals) m logs k =
    let st : NonceManager × Logs = verify_one (nonce, peer_id) (m, logs) in
    verify_all-Keeps arrivals st.0 st.1 (verify_one-Keeps nonce peer_id m logs k)

abbrev pub no_logs : Logs
no_logs p = []

-- A new manager with a window of any size; the source makes it 1000.
abbrev pub manager_of : (window_size : ℕ) → NonceManager
manager_of size = record new_nonce_manager { window_size = size }

manager_of-Keeps : (window_size : ℕ) → Keeps (manager_of window_size) no_logs
unfolding new_nonce_manager find
manager_of-Keeps window_size = record { refines = λ p. new_state-Refines window_size }

pub new_nonce_manager-Keeps : Keeps new_nonce_manager no_logs
unfolding new_nonce_manager find
new_nonce_manager-Keeps = record { refines = λ p. new_state-Refines 1000 }

-- No value stands twice in a log.
abbrev pub IsDistinct : List ℕ → Type 0
IsDistinct [] = Unit
IsDistinct (x ∷ xs) = (is_member x xs ≡ false) × IsDistinct xs

logged-IsDistinct :
    (w v : ℕ) (st : PeerNonceState) (log : List ℕ)
    → Refines w st log
    → IsDistinct log
    → IsDistinct (logged (verify_nonce w v st).1 v log)
logged-IsDistinct w v st log r d =
    let (safe, _) = verify_nonce-Refines w v st log r in
    elim (Bool-cases (verify_nonce w v st).1) [
      | inr refused ↦ rw refused d
      | inl accepted ↦ rw accepted (ground (arith, safe accepted), d)
    ]

verify_all-IsDistinct_from :
    (arrivals : List (Bytes × ℕ)) (m : NonceManager) (logs : Logs) (p : ℕ)
    → Keeps m logs
    → ((q : ℕ) → IsDistinct (logs q))
    → IsDistinct ((verify_all arrivals (m, logs)).1 p)
unfolding verify_incoming_nonce
verify_all-IsDistinct_from [] m logs p k d = d p
verify_all-IsDistinct_from ((nonce, peer_id) ∷ arrivals) m logs p k d =
    let st : NonceManager × Logs = verify_one (nonce, peer_id) (m, logs) in
    verify_all-IsDistinct_from arrivals st.0 st.1 p (verify_one-Keeps nonce peer_id m logs k) λ q.
      elim (Bool-cases (peer_id == q)) [
        | inl same ↦ rw same (
            logged-IsDistinct m.window_size (nonce_to_uint64 nonce) (state_of peer_id m.peer_states)
              (logs peer_id) (k.refines peer_id) (d peer_id))
        | inr other ↦ rw other (d q)
      ]

-- Whatever nonces arrive from whatever peers, no value is accepted twice from the same peer, also when
-- the window has forgotten it.
pub verify_all-IsDistinct :
    (arrivals : List (Bytes × ℕ)) (p : ℕ)
    → IsDistinct ((verify_all arrivals (new_nonce_manager, no_logs)).1 p)
verify_all-IsDistinct arrivals p =
    verify_all-IsDistinct_from arrivals new_nonce_manager no_logs p new_nonce_manager-Keeps (λ q. _)

-- What a new manager has accepted after some arrivals.
abbrev pub after : (window_size : ℕ) → List (Bytes × ℕ) → NonceManager × Logs
after window_size arrivals = verify_all arrivals (manager_of window_size, no_logs)

verify_incoming_nonce-accepts_from :
    (arrivals : List (Bytes × ℕ)) (m : NonceManager) (logs : Logs) (nonce : Bytes) (peer_id : ℕ)
    → Keeps m logs
    → nonce_to_uint64 nonce + m.window_size < 2 ^ 64
    → (let st : NonceManager × Logs = verify_all arrivals (m, logs) in
        (verify_incoming_nonce nonce peer_id st.0).1
        ≡ accepts m.window_size (nonce_to_uint64 nonce) (st.1 peer_id))
unfolding verify_incoming_nonce
verify_incoming_nonce-accepts_from [] m logs nonce peer_id k h =
    verify_nonce-accepts m.window_size (nonce_to_uint64 nonce) (state_of peer_id m.peer_states)
      (logs peer_id) (k.refines peer_id) h
verify_incoming_nonce-accepts_from ((first, sender) ∷ arrivals) m logs nonce peer_id k h =
    let st : NonceManager × Logs = verify_one (first, sender) (m, logs) in
    verify_incoming_nonce-accepts_from arrivals st.0 st.1 nonce peer_id
      (verify_one-Keeps first sender m logs k) h

-- After any arrivals, a manager that was new before them, with a window of any size, accepts just what the
-- logs say, where the value and the size do not wrap: a value that was not accepted from this peer
-- before and is at most the size below the highest one that was.
pub verify_incoming_nonce-accepts :
    (window_size : ℕ) (arrivals : List (Bytes × ℕ)) (nonce : Bytes) (peer_id : ℕ)
    → nonce_to_uint64 nonce + window_size < 2 ^ 64
    → (verify_incoming_nonce nonce peer_id (after window_size arrivals).0).1
      ≡ accepts window_size (nonce_to_uint64 nonce) ((after window_size arrivals).1 peer_id)
verify_incoming_nonce-accepts window_size arrivals nonce peer_id h =
    verify_incoming_nonce-accepts_from arrivals (manager_of window_size) no_logs nonce peer_id
      (manager_of-Keeps window_size) h

-- An outgoing nonce carries its counter.
pub nonce_to_uint64-uint64_to_nonce :
    (value : ℕ) (random_bytes : Bytes)
    → value < 2 ^ 64
    → nonce_to_uint64 (uint64_to_nonce value random_bytes) ≡ value
unfolding nonce_to_uint64 uint64_to_nonce
nonce_to_uint64-uint64_to_nonce value random_bytes h = omega arith
