-- ===== src/Transfer/Manager/Pausing.antt =====
-- Pausing and resuming a transfer.
use hyper_share.Prelude.{ℕ, ◌≢◌, inl, inr, List, Option-cases}
use hyper_share.Maps.{bytes_eq, find}
use hyper_share.Wire.{Bytes}
use hyper_share.Transfer.Manager.{
  TransferManager, done, new_transfer_manager, pause_transfer, resume_transfer,
}
use hyper_share.Transfer.Manager.Calls.{Call, call_all, AreIdle, call_all-AreIdle}

pause_transfer_idle :
    (k : Bytes) (m : TransferManager) → AreIdle m.active_sessions → (pause_transfer k m).1 ≢ done
unfolding pause_transfer
pause_transfer_idle k m idle = elim (Option-cases (find k m.active_sessions)) [
  | inl e ↦ rw (pause_transfer, e) (λ h. cc)
  | inr (s, e) ↦ rw (pause_transfer, e, (idle k s e).0) (λ h. cc)
]

resume_transfer_idle :
    (k : Bytes) (m : TransferManager) → AreIdle m.active_sessions → (resume_transfer k m).1 ≢ done
unfolding resume_transfer
resume_transfer_idle k m idle = elim (Option-cases (find k m.active_sessions)) [
  | inl e ↦ rw (resume_transfer, e) (λ h. cc)
  | inr (s, e) ↦ rw (resume_transfer, e, (idle k s e).1) (λ h. cc)
]

-- Whatever calls a new manager gets, `pause_transfer` and `resume_transfer` then refuse, for every
-- session: no call starts a transfer.
pub pause_transfer-call_all :
    (generichash : Bytes → Bytes) (now : ℕ) (cs : List Call) (k : Bytes)
    → (let m = call_all generichash cs (new_transfer_manager now) in
        ((pause_transfer k m).1 ≢ done) × ((resume_transfer k m).1 ≢ done))
unfolding new_transfer_manager find
pause_transfer-call_all generichash now cs k =
    let idle =
      call_all-AreIdle generichash cs (new_transfer_manager now) (λ j s found. absurd cc) in
    (pause_transfer_idle k _ idle, resume_transfer_idle k _ idle)
