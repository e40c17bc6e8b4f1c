-- ===== src/Transfer/Runs.antt =====
-- Runs of the transfer manager, the flow controller and the bandwidth limiter.
use hyper_share.Prelude.{◌+◌, ◌*◌, ◌≤◌, ◌≡◌, ◌≢◌, false, List, [], ◌∷◌, length, arith}
use hyper_share.Maps.{bytes_eq}
use hyper_share.Wire.{Bytes}
use hyper_share.Storage.Metadata.{FileMetadata}
use hyper_share.Transfer.Manager.{
  TransferManager, new_transfer_manager, pause_transfer, resume_transfer, done,
}
use hyper_share.Transfer.Manager.Calls as Calls
use hyper_share.Transfer.Manager.Calls.{call_all-within, call_all-find}
use hyper_share.Transfer.Manager.Pausing.{pause_transfer-call_all}
use hyper_share.Transfer.FlowControl.{FlowController, new_flow_controller}
use hyper_share.Transfer.FlowControl.Window.{
  Event, ack, timeout, measured, handle_all, IsOpen, handle_all-IsOpen, new_flow_controller-IsOpen,
}
use hyper_share.Transfer.FlowControl.Rate.{
  Clock, IsLimited, attempts, attempts-IsLimited, new_flow_controller-IsLimited,
}
use hyper_share.Transfer.Bandwidth.{BandwidthLimiter, new_bandwidth_limiter, low, high, add_request}
use hyper_share.Transfer.Bandwidth.Tokens as Tokens
use hyper_share.Transfer.Bandwidth.Tokens.{call_all-bounded, refill_all, refill_all_starved}

abbrev no_hash : Bytes → Bytes
no_hash data_bytes = []

abbrev no_file : FileMetadata
no_file = record {
  file_id = [];
  file_hash = [];
  filename = [];
  file_path = [];
  file_size = 0;
  created_at = 0;
  modified_at = 0;
  chunk_hashes = [];
  chunk_size = 4;
  chunk_count = 0;
  file_type = [];
  description = [];
  tags = [];
}

abbrev manager : TransferManager
manager = new_transfer_manager 0

abbrev calls : List Calls.Call
calls =
    Calls.download (1 ∷ []) (9 ∷ []) 3 no_file
    ∷ Calls.pause (1 ∷ [])
    ∷ Calls.set_limit 12
    ∷ Calls.set_limit 1
    ∷ []

manager_room : length manager.active_sessions ≤ 10
unfolding new_transfer_manager
manager_room = omega arith

call_all-within_example : length (Calls.call_all no_hash calls manager).active_sessions ≤ 12
unfolding new_transfer_manager
call_all-within_example = call_all-within no_hash calls 10 manager manager_room (omega arith)

pause_transfer-call_all_example :
    (let m = Calls.call_all no_hash calls manager in
      ((pause_transfer (1 ∷ []) m).1 ≢ done) × ((resume_transfer (1 ∷ []) m).1 ≢ done))
pause_transfer-call_all_example = pause_transfer-call_all no_hash 0 calls (1 ∷ [])

abbrev controller : FlowController
controller = new_flow_controller 0

abbrev events : List Event
events = ack ∷ ack ∷ measured 80 ∷ timeout ∷ ack ∷ ack ∷ []

handle_all-IsOpen_example : IsOpen (handle_all events (0, controller)).1
handle_all-IsOpen_example = handle_all-IsOpen events 0 controller (new_flow_controller-IsOpen 0)

-- A controller that has left slow start at a threshold of two.
abbrev avoiding : FlowController
avoiding = record (new_flow_controller 0) {
  window_size = 2;
  slow_start_threshold = 2;
  congestion_window = 2;
  in_slow_start = false;
}

avoiding-IsOpen : IsOpen avoiding
avoiding-IsOpen = record {
  window_pos = omega arith;
  window_le = omega arith;
  threshold_ge = omega arith;
  threshold_range = omega arith;
  window_range = omega arith;
  slow_start = λ e. cc;
}

-- Two attempts, each with three readings of the clock.
abbrev readings : List Clock
readings =
    record { updated = 1; counted = 2; sent = 4 }
    ∷ record { updated = 4; counted = 4; sent = 5 }
    ∷ []

attempts-IsLimited_example : IsLimited 5 (attempts readings (controller, []))
attempts-IsLimited_example =
    attempts-IsLimited readings 0 controller []
      ((omega arith, omega arith, omega arith), ((omega arith, omega arith, omega arith), tt))
      (new_flow_controller-IsLimited 0)

abbrev limiter : BandwidthLimiter
limiter = new_bandwidth_limiter 0

abbrev limiter_calls : List Tokens.Call
limiter_calls =
    Tokens.set_bandwidth 2000000
    ∷ Tokens.set_capacity 50000
    ∷ Tokens.add 1 low 10
    ∷ Tokens.add 2 high 20
    ∷ Tokens.ask 5000000 100
    ∷ Tokens.consume 100
    ∷ Tokens.process 9000000
    ∷ []

call_all-bounded_example :
    1000000000 * (Tokens.call_all limiter_calls limiter).1 + 2000000 * limiter.last_refill
    ≤ 1000000000 * limiter.available_tokens
      + 2000000 * (Tokens.call_all limiter_calls limiter).0.last_refill
unfolding new_bandwidth_limiter
call_all-bounded_example =
    call_all-bounded 2000000 limiter_calls limiter (omega arith)
      (omega arith, (tt, (tt, (tt, (tt, (tt, (tt, tt)))))))

-- 100 bytes per second, polled every five milliseconds.
abbrev polled : BandwidthLimiter
polled = record (new_bandwidth_limiter 0) { max_bandwidth = 100; available_tokens = 0 }

refill_all_starved_example :
    (refill_all (5000000 ∷ 10000000 ∷ []) polled).available_tokens ≡ polled.available_tokens
unfolding new_bandwidth_limiter
refill_all_starved_example =
    refill_all_starved (5000000 ∷ 10000000 ∷ []) polled (omega arith) (omega arith)
      (omega arith, omega arith, (omega arith, omega arith, tt))

abbrev filled : BandwidthLimiter
filled = add_request 2 high 20 (add_request 1 low 10 limiter)
