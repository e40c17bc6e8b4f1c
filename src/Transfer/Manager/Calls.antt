-- ===== src/Transfer/Manager/Calls.antt =====
-- The sessions of the transfer manager.
use hyper_share.Prelude.{
  some_injective, none, ℕ, ◌≤◌, ◌≡◌, refl, sym, subst, ◌∙◌, inl, inr, List, [], ◌∷◌, length,
  if◌then◌else◌, some, arith, Bool-cases, max,
}
use hyper_share.Maps.{
  ◌=?◌, bytes_eq, bytes_beq_iff, Map, find, insert, find-insert, find-erase, length-insert-le,
  length-insert_known, length-erase-le,
}
use hyper_share.Wire.{Bytes}
use hyper_share.Storage.Metadata.{FileMetadata}
use hyper_share.Transfer.Session.{TransferSession}
use hyper_share.Transfer.Manager.{
  TransferManager, start_download, start_upload, pause_transfer, resume_transfer, cancel_transfer,
  handle_chunk_request, handle_chunk_received, cleanup_completed_sessions,
  set_max_concurrent_transfers, set_global_bandwidth_limit,
}
use hyper_share.Transfer.Manager.Changes.{
  IsIdle, Changes, same, dropped, replaced, added, Does, Does-same, start_session-Does,
  pause_transfer-Does, resume_transfer-Does, cancel_transfer-Does, handle_chunk_request-Does,
  handle_chunk_received-Does,
}

-- The calls of a manager.
pub data Call : Type 0 where
  download upload : (session_id file_id : Bytes) → ℕ → FileMetadata → Call
  pause resume cancel : Bytes → Call
  chunk_request : Bytes → ℕ → ℕ → Call
  chunk_received : Bytes → ℕ → Bytes → Call
  cleanup : Call
  set_limit set_bandwidth : ℕ → Call

-- The session that a call names.
abbrev pub Names : Call → Bytes → Type 0
Names (download session_id file_id peer_id metadata) k = session_id ≡ k
Names (upload session_id file_id peer_id metadata) k = session_id ≡ k
Names (pause session_id) k = session_id ≡ k
Names (resume session_id) k = session_id ≡ k
Names (cancel session_id) k = session_id ≡ k
Names (chunk_request session_id chunk_index now) k = session_id ≡ k
Names (chunk_received session_id chunk_index chunk_data) k = session_id ≡ k
Names cleanup k = ⊥
Names (set_limit max_transfers) k = ⊥
Names (set_bandwidth bytes_per_second) k = ⊥

-- The limit that a call sets, or 0.
abbrev pub limit_of : Call → ℕ
limit_of (set_limit max_transfers) = max_transfers
limit_of _ = 0

-- The highest limit that some calls set, or `most`.
abbrev pub highest : (most : ℕ) → List Call → ℕ
highest most [] = most
highest most (c ∷ cs) = highest (max most (limit_of c)) cs

other_key :
    {V : Type 0} (x y : V) (k j : Bytes) (named : Bytes → Type 0)
    → named k
    → ¬ named j
    → (if k =? j then x else y) ≡ y
other_key x y k j named a n = elim (Bool-cases (k =? j)) [
  | inl e ↦ absurd (n (subst named ((bytes_beq_iff k j).0 e) a))
  | inr e ↦ rw e
]

-- What a change does to the number of the sessions.
Changes-length :
    (m : TransferManager) (named : Bytes → Type 0) (sessions : Map Bytes TransferSession)
    → Changes m named sessions
    → (most : ℕ) → m.max_concurrent_transfers ≤ most
    → length m.active_sessions ≤ most
    → length sessions ≤ most
Changes-length m named _ same most l h = h
Changes-length m named _ (dropped k _) most l h = omega (arith, length-erase-le k m.active_sessions)
Changes-length m named _ (replaced k s s' _ e _) most l h =
    omega (arith, length-insert_known k s' s m.active_sessions e)
Changes-length m named _ (added k s _ room _) most l h =
    omega (arith, length-insert-le k s m.active_sessions)

-- A session that is not named stays as it is.
Changes-find :
    (m : TransferManager) (named : Bytes → Type 0) (sessions : Map Bytes TransferSession)
    (j : Bytes)
    → Changes m named sessions
    → ¬ named j
    → find j sessions ≡ find j m.active_sessions
Changes-find m named _ j same n = refl
Changes-find m named _ j (dropped k a) n =
    find-erase k j m.active_sessions ∙ other_key _ _ k j named a n
Changes-find m named _ j (replaced k s s' a e _) n =
    find-insert k j s' m.active_sessions ∙ other_key _ _ k j named a n
Changes-find m named _ j (added k s a room _) n =
    find-insert k j s m.active_sessions ∙ other_key _ _ k j named a n

-- No session is TRANSFERRING or PAUSED.
abbrev pub AreIdle : Map Bytes TransferSession → Type 0
AreIdle sessions = (k : Bytes) (s : TransferSession) → find k sessions ≡ some s → IsIdle s

none-ne-some : {x : TransferSession} → none ≡ some x → ⊥
none-ne-some h = cc

inserted-IsIdle :
    (sessions : Map Bytes TransferSession) (k : Bytes) (new : TransferSession)
    → AreIdle sessions
    → IsIdle new
    → AreIdle (insert k new sessions)
inserted-IsIdle sessions k new idle fresh = λ j s found. elim (Bool-cases (k =? j)) [
  | inl here ↦
      let stored : find j (insert k new sessions) ≡ some new =
        find-insert k j new sessions ∙ rw here in
      subst IsIdle (some_injective (sym stored ∙ found)) fresh
  | inr there ↦ idle j s (sym (find-insert k j new sessions ∙ rw there) ∙ found)
]

Changes-AreIdle :
    (m : TransferManager) (named : Bytes → Type 0) (sessions : Map Bytes TransferSession)
    → Changes m named sessions
    → AreIdle m.active_sessions
    → AreIdle sessions
Changes-AreIdle m named _ same idle = idle
Changes-AreIdle m named _ (dropped k _) idle = λ j s found. elim (Bool-cases (k =? j)) [
  | inl here ↦ absurd (none-ne-some (sym (find-erase k j m.active_sessions ∙ rw here) ∙ found))
  | inr there ↦ idle j s (sym (find-erase k j m.active_sessions ∙ rw there) ∙ found)
]
Changes-AreIdle m named _ (replaced k s s' _ e keeps) idle =
    λ j x found. inserted-IsIdle m.active_sessions k s' idle (keeps (idle k s e)) j x found
Changes-AreIdle m named _ (added k s _ room new) idle =
    λ j x found. inserted-IsIdle m.active_sessions k s idle new j x found

-- None of the calls names the session.
abbrev pub Ignore : Bytes → List Call → Type 0
Ignore k [] = Unit
Ignore k (c ∷ cs) = (¬ Names c k) × Ignore k cs

module _ (generichash : Bytes → Bytes) where
  abbrev pub call : Call → TransferManager → TransferManager
  call (download session_id file_id peer_id metadata) m =
      (start_download session_id file_id peer_id metadata m).0
  call (upload session_id file_id peer_id metadata) m =
      (start_upload session_id file_id peer_id metadata m).0
  call (pause session_id) m = (pause_transfer session_id m).0
  call (resume session_id) m = (resume_transfer session_id m).0
  call (cancel session_id) m = (cancel_transfer session_id m).0
  call (chunk_request session_id chunk_index now) m =
      (handle_chunk_request session_id chunk_index now m).0
  call (chunk_received session_id chunk_index chunk_data) m =
      (handle_chunk_received generichash session_id chunk_index chunk_data m).0
  call cleanup m = cleanup_completed_sessions m
  call (set_limit max_transfers) m = set_max_concurrent_transfers max_transfers m
  call (set_bandwidth bytes_per_second) m = set_global_bandwidth_limit bytes_per_second m

  call-Does : (c : Call) (m : TransferManager) → Does m (Names c) (limit_of c) (call c m)
  unfolding cleanup_completed_sessions set_max_concurrent_transfers set_global_bandwidth_limit
  call-Does (download k file_id peer_id metadata) m =
      start_session-Does k file_id peer_id metadata m
  call-Does (upload k file_id peer_id metadata) m = start_session-Does k file_id peer_id metadata m
  call-Does (pause k) m = pause_transfer-Does k m
  call-Does (resume k) m = resume_transfer-Does k m
  call-Does (cancel k) m = cancel_transfer-Does k m
  call-Does (chunk_request k chunk_index now) m = handle_chunk_request-Does k chunk_index now m
  call-Does (chunk_received k chunk_index chunk_data) m =
      handle_chunk_received-Does generichash k chunk_index chunk_data m
  call-Does cleanup m = Does-same m _
  call-Does (set_limit max_transfers) m = record { within = omega arith; changes = same }
  call-Does (set_bandwidth bytes_per_second) m = record { within = omega arith; changes = same }

  abbrev pub call_all : List Call → TransferManager → TransferManager
  call_all [] m = m
  call_all (c ∷ cs) m = call_all cs (call c m)

  -- Whatever calls come in whatever order, among them changes of the limit, the number of sessions
  -- stays within the highest limit that there was, if it and the limit are at most `most` before.
  pub call_all-within :
      (cs : List Call) (most : ℕ) (m : TransferManager)
      → length m.active_sessions ≤ most
      → m.max_concurrent_transfers ≤ most
      → length (call_all cs m).active_sessions ≤ highest most cs
  call_all-within [] most m h l = h
  call_all-within (c ∷ cs) most m h l =
      let d = call-Does c m in
      let h' = Changes-length m (Names c) _ d.changes most l h in
      call_all-within cs (max most (limit_of c)) (call c m) (omega (arith, h'))
        (omega (arith, d.within))

  -- Calls that do not name a session leave it as it was, found or not.
  pub call_all-find :
      (cs : List Call) (k : Bytes) (m : TransferManager)
      → Ignore k cs
      → find k (call_all cs m).active_sessions ≡ find k m.active_sessions
  call_all-find [] k m h = refl
  call_all-find (c ∷ cs) k m (h, hs) =
      call_all-find cs k (call c m) hs ∙ Changes-find m (Names c) _ k (call-Does c m).changes h

  pub call_all-AreIdle :
      (cs : List Call) (m : TransferManager)
      → AreIdle m.active_sessions
      → AreIdle (call_all cs m).active_sessions
  call_all-AreIdle [] m idle = idle
  call_all-AreIdle (c ∷ cs) m idle =
      call_all-AreIdle cs (call c m) (Changes-AreIdle m (Names c) _ (call-Does c m).changes idle)
