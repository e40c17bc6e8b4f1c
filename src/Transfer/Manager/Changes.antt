-- ===== src/Transfer/Manager/Changes.antt =====
-- What the operations of the transfer manager do to its sessions.
use hyper_share.Prelude.{
  set, ◌==◌, Bool, true, false, ℕ, ◌≤◌, ◌<◌, ◌≡◌, refl, inl, inr, length, ltb, if◌then◌else◌, some,
  arith, Bool-cases, Option-cases, max,
}
use hyper_share.Maps.{bytes_eq, Map, find, insert, erase}
use hyper_share.Wire.{Bytes}
use hyper_share.Storage.Metadata.{FileMetadata}
use hyper_share.Transfer.Session.{
  Outcome, TransferSession, completed, new_session, set_state, is_complete, mark_chunk_requested,
}
use hyper_share.Transfer.Bits.{count}
use hyper_share.Transfer.Session as Session
use hyper_share.Transfer.Session.Accounting.{accepted, handle_chunk_received_cases}
use hyper_share.Transfer.Manager.{
  is_state_transferring, is_state_paused, is_success, TransferManager, start_session,
  pause_transfer, resume_transfer, cancel_transfer, handle_chunk_request, handle_chunk_received,
  settle,
}

-- Neither TRANSFERRING nor PAUSED.
abbrev pub IsIdle : TransferSession → Type 0
IsIdle s = (is_state_transferring s.state ≡ false) × (is_state_paused s.state ≡ false)

-- What a call that names the sessions `named` can do: nothing, drop one, replace one that is there,
-- or add one where there is room.
pub data Changes (m : TransferManager) (named : Bytes → Type 0)
    : Map Bytes TransferSession → Type 0 where
  same : Changes m named m.active_sessions
  dropped : (k : Bytes) → named k → Changes m named (erase k m.active_sessions)
  replaced :
      (k : Bytes) (s s' : TransferSession)
      → named k
      → find k m.active_sessions ≡ some s
      → (IsIdle s → IsIdle s')
      → Changes m named (insert k s' m.active_sessions)
  added :
      (k : Bytes) (s : TransferSession)
      → named k
      → length m.active_sessions < m.max_concurrent_transfers
      → IsIdle s
      → Changes m named (insert k s m.active_sessions)

pub record Does (m : TransferManager) (named : Bytes → Type 0) (limit : ℕ) (m' : TransferManager)
    : Type 0 where
  pub within : m'.max_concurrent_transfers ≤ max m.max_concurrent_transfers limit
  pub changes : Changes m named m'.active_sessions

pub Does-same : (m : TransferManager) (named : Bytes → Type 0) → Does m named 0 m
Does-same m named = record { within = omega arith; changes = same }

pub start_session-Does :
    (k file_id : Bytes) (peer_id : ℕ) (metadata : FileMetadata) (m : TransferManager)
    → Does m (◌≡◌ k) 0 (start_session k file_id peer_id metadata m).0
unfolding start_session new_session
start_session-Does k file_id peer_id metadata m =
    elim (Bool-cases (ltb (length m.active_sessions) m.max_concurrent_transfers)) [
      | inl room ↦ rw room (record {
        within = omega arith;
        changes = added k _ refl (ground (arith, room)) (refl, refl);
      })
      | inr full ↦ rw full (Does-same m (◌≡◌ k))
    ]

not_both : {b : Bool} → b ≡ true → b ≡ false → ⊥
not_both h h' = cc

pub pause_transfer-Does :
    (k : Bytes) (m : TransferManager) → Does m (◌≡◌ k) 0 (pause_transfer k m).0
unfolding pause_transfer
pause_transfer-Does k m = elim (Option-cases (find k m.active_sessions)) [
  | inl e ↦ rw (pause_transfer, e) (Does-same m (◌≡◌ k))
  | inr (s, e) ↦ elim (Bool-cases (is_state_transferring s.state)) [
    | inl going ↦
        rw (pause_transfer, e, going)
          (record {
            within = omega arith;
            changes = replaced k s _ refl e (λ idle. absurd (not_both going idle.0));
          })
    | inr other ↦ rw (pause_transfer, e, other) (Does-same m (◌≡◌ k))
  ]
]

pub resume_transfer-Does :
    (k : Bytes) (m : TransferManager) → Does m (◌≡◌ k) 0 (resume_transfer k m).0
unfolding resume_transfer
resume_transfer-Does k m = elim (Option-cases (find k m.active_sessions)) [
  | inl e ↦ rw (resume_transfer, e) (Does-same m (◌≡◌ k))
  | inr (s, e) ↦ elim (Bool-cases (is_state_paused s.state)) [
    | inl waits ↦
        rw (resume_transfer, e, waits)
          (record {
            within = omega arith;
            changes = replaced k s _ refl e (λ idle. absurd (not_both waits idle.1));
          })
    | inr other ↦ rw (resume_transfer, e, other) (Does-same m (◌≡◌ k))
  ]
]

pub cancel_transfer-Does :
    (k : Bytes) (m : TransferManager) → Does m (◌≡◌ k) 0 (cancel_transfer k m).0
unfolding cancel_transfer
cancel_transfer-Does k m = elim (Option-cases (find k m.active_sessions)) [
  | inl e ↦ rw (cancel_transfer, e) (Does-same m (◌≡◌ k))
  | inr (s, e) ↦ rw (cancel_transfer, e) (record { within = omega arith; changes = dropped k refl })
]

mark_chunk_requested-state :
    (now i : ℕ) (s : TransferSession) → (mark_chunk_requested now i s).0.state ≡ s.state
unfolding mark_chunk_requested
mark_chunk_requested-state now i s = ground arith

pub handle_chunk_request-Does :
    (k : Bytes) (chunk_index now : ℕ) (m : TransferManager)
    → Does m (◌≡◌ k) 0 (handle_chunk_request k chunk_index now m).0
unfolding handle_chunk_request
handle_chunk_request-Does k chunk_index now m = elim (Option-cases (find k m.active_sessions)) [
  | inl e ↦ rw (handle_chunk_request, e) (Does-same m (◌≡◌ k))
  | inr (s, e) ↦
      let kept = mark_chunk_requested-state now chunk_index s in
      rw (handle_chunk_request, e)
        (record { within = omega arith; changes = replaced k s _ refl e (λ idle. rw kept idle) })
]

completed-IsIdle :
    (s : TransferSession) → IsIdle s → IsIdle (if is_complete s then set_state completed s else s)
unfolding set_state
completed-IsIdle s idle = elim (Bool-cases (is_complete s)) [
  | inl full ↦ rw full (refl, refl)
  | inr part ↦ rw part idle
]

pub settle-Does :
    (k chunk_data : Bytes) (s : TransferSession) (r : TransferSession × Outcome)
    (m : TransferManager)
    → find k m.active_sessions ≡ some s
    → (IsIdle s → IsIdle r.0)
    → Does m (◌≡◌ k) 0 (settle k chunk_data r m).0
settle-Does k chunk_data s r m e idle = elim (Bool-cases (is_success r.1)) [
  | inl fine ↦
      rw (settle, fine)
        (record {
          within = omega arith;
          changes = replaced k s _ refl e (λ i. completed-IsIdle r.0 (idle i));
        })
  | inr refused ↦
      rw (settle, refused) (record { within = omega arith; changes = replaced k s _ refl e idle })
]

accepted-IsIdle :
    (generichash : Bytes → Bytes) (i n : ℕ) (s : TransferSession)
    → IsIdle s
    → IsIdle (accepted generichash i n s)
accepted-IsIdle generichash i n s idle =
    elim (Bool-cases (count (set s.received_chunks i true) == s.metadata.chunk_count)) [
      | inl full ↦ rw full (refl, refl)
      | inr part ↦ rw part idle
    ]

handle_chunk_received-IsIdle :
    (generichash : Bytes → Bytes) (i : ℕ) (chunk_data : Bytes) (s : TransferSession)
    → IsIdle s
    → IsIdle (Session.handle_chunk_received generichash i chunk_data s).0
handle_chunk_received-IsIdle generichash i chunk_data s idle =
    elim (handle_chunk_received_cases generichash i chunk_data s) [
      | inl (_, kept) ↦ rw kept idle
      | inr (_, e) ↦ rw e (accepted-IsIdle generichash i (length chunk_data) s idle)
    ]

pub handle_chunk_received-Does :
    (generichash : Bytes → Bytes) (k : Bytes) (chunk_index : ℕ) (chunk_data : Bytes)
    (m : TransferManager)
    → Does m (◌≡◌ k) 0 (handle_chunk_received generichash k chunk_index chunk_data m).0
unfolding handle_chunk_received
handle_chunk_received-Does generichash k chunk_index chunk_data m =
    elim (Option-cases (find k m.active_sessions)) [
      | inl e ↦ rw (handle_chunk_received, e) (Does-same m (◌≡◌ k))
      | inr (s, e) ↦
          rw (handle_chunk_received, e)
            (settle-Does k chunk_data s _ m e
              (handle_chunk_received-IsIdle generichash chunk_index chunk_data s))
    ]
