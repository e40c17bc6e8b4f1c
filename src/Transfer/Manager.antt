-- ===== src/Transfer/Manager.antt =====
-- `TransferManager` of src/transfer/transfer_manager.cpp. The session identifier that the source draws
-- at random, the uninitialised metadata of a new session and the times are arguments.
pub mod Changes
pub mod Calls
pub mod Pausing
use hyper_share.Prelude.{
  ℕ, zero, suc, ◌+◌, ◌%◌, ◌^◌, Bool, true, false, List, [], ◌∷◌, map, length, ltb, if◌then◌else◌,
  Option, none, some,
}
use hyper_share.Maps.{Eq, bytes_eq, Map, find, insert, erase}
use hyper_share.Wire.{Bytes}
use hyper_share.Storage.Metadata.{FileMetadata}
use hyper_share.Transfer.Session.{
  TransferSession, TransferState, transferring, paused, cancelled, completed, new_session,
  set_state, is_complete, mark_chunk_requested, Outcome, success, is_state_completed,
}
use hyper_share.Transfer.Session as Session

pub record TransferManager : Type 0 where
  pub active_sessions : Map Bytes TransferSession
  pub max_concurrent_transfers : ℕ
  pub global_bandwidth_limit : ℕ
  pub total_bytes_transferred : ℕ
  pub start_time : ℕ

unfoldable pub new_transfer_manager : ℕ → TransferManager
new_transfer_manager now = record {
  active_sessions = [];
  max_concurrent_transfers = 10;
  global_bandwidth_limit = 0;
  total_bytes_transferred = 0;
  start_time = now;
}

pub data ManagerOutcome : Type 0 where
  session_not_found cannot_pause cannot_resume : ManagerOutcome
  done : ManagerOutcome
  of_session : Outcome → ManagerOutcome
  throws_out_of_range : ManagerOutcome

abbrev pub can_start_new_transfer : TransferManager → Bool
can_start_new_transfer m = ltb (length m.active_sessions) m.max_concurrent_transfers

-- The body of `start_download` and of `start_upload`, which are the same.
unfoldable pub start_session :
    (session_id file_id : Bytes) → ℕ → FileMetadata → TransferManager → TransferManager × Bytes
start_session session_id file_id peer_id metadata m =
    if can_start_new_transfer m
    then (
      record m {
        active_sessions =
            insert session_id (new_session session_id file_id peer_id metadata) m.active_sessions;
      },
      session_id,
    )
    else (m, [])

-- The identifier is empty when no transfer is started.
abbrev pub start_download :
    (session_id file_id : Bytes) → ℕ → FileMetadata → TransferManager → TransferManager × Bytes
start_download = start_session

abbrev pub start_upload :
    (session_id file_id : Bytes) → ℕ → FileMetadata → TransferManager → TransferManager × Bytes
start_upload = start_session

unfoldable pub has_session : Bytes → TransferManager → Bool
has_session session_id m = elim (find session_id m.active_sessions) [ none ↦ false | some s ↦ true ]

abbrev pub with_session : Bytes → TransferSession → TransferManager → TransferManager
with_session session_id s m = record m { active_sessions = insert session_id s m.active_sessions }

abbrev pub is_state_transferring : TransferState → Bool
is_state_transferring transferring = true
is_state_transferring _ = false

abbrev pub is_state_paused : TransferState → Bool
is_state_paused paused = true
is_state_paused _ = false

unfoldable pub pause_transfer : Bytes → TransferManager → TransferManager × ManagerOutcome
pause_transfer session_id m = elim (find session_id m.active_sessions) [
  | none ↦ (m, session_not_found)
  | some s ↦
      if is_state_transferring s.state
      then (with_session session_id (set_state paused s) m, done)
      else (m, cannot_pause)
]

unfoldable pub resume_transfer : Bytes → TransferManager → TransferManager × ManagerOutcome
resume_transfer session_id m = elim (find session_id m.active_sessions) [
  | none ↦ (m, session_not_found)
  | some s ↦
      if is_state_paused s.state
      then (with_session session_id (set_state transferring s) m, done)
      else (m, cannot_resume)
]

-- The session is destroyed when it is erased.
unfoldable pub cancel_transfer : Bytes → TransferManager → TransferManager × ManagerOutcome
cancel_transfer session_id m = elim (find session_id m.active_sessions) [
  | none ↦ (m, session_not_found)
  | some s ↦ (record m { active_sessions = erase session_id m.active_sessions }, done)
]

unfoldable pub handle_chunk_request :
    Bytes → ℕ → ℕ → TransferManager → TransferManager × ManagerOutcome
handle_chunk_request session_id chunk_index now m = elim (find session_id m.active_sessions) [
  | none ↦ (m, session_not_found)
  | some s ↦
      let (s', throws) = mark_chunk_requested now chunk_index s in
      (with_session session_id s' m, if throws then throws_out_of_range else done)
]

abbrev pub is_success : Outcome → Bool
is_success success = true
is_success _ = false

-- What the manager does with the session's answer.
abbrev pub settle :
    Bytes → Bytes → TransferSession × Outcome → TransferManager → TransferManager × ManagerOutcome
settle session_id chunk_data (s, outcome) m =
    if is_success outcome
    then (
      record m {
        active_sessions =
            insert session_id (if is_complete s then set_state completed s else s)
              m.active_sessions;
        total_bytes_transferred = (m.total_bytes_transferred + length chunk_data) % 2 ^ 64;
      },
      of_session outcome,
    )
    else (with_session session_id s m, of_session outcome)

module _ (generichash : Bytes → Bytes) where
  unfoldable pub handle_chunk_received :
      Bytes → ℕ → Bytes → TransferManager → TransferManager × ManagerOutcome
  handle_chunk_received session_id chunk_index chunk_data m =
      elim (find session_id m.active_sessions) [
        | none ↦ (m, session_not_found)
        | some s ↦
            settle session_id chunk_data
              (Session.handle_chunk_received generichash chunk_index chunk_data s) m
      ]

unfoldable pub set_max_concurrent_transfers : ℕ → TransferManager → TransferManager
set_max_concurrent_transfers max_transfers m = record m { max_concurrent_transfers = max_transfers }

unfoldable pub set_global_bandwidth_limit : ℕ → TransferManager → TransferManager
set_global_bandwidth_limit bytes_per_second m = record m {
  global_bandwidth_limit = bytes_per_second;
}

unfoldable pub count_transferring : Map Bytes TransferSession → ℕ
count_transferring [] = 0
count_transferring ((session_id, s) ∷ sessions) =
    (if is_state_transferring s.state then 1 else 0) + count_transferring sessions

unfoldable pub get_active_transfer_count : TransferManager → ℕ
get_active_transfer_count m = count_transferring m.active_sessions

-- Both branches of the loop only go on to the next session.
unfoldable pub cleanup_completed_sessions : TransferManager → TransferManager
cleanup_completed_sessions m = m
