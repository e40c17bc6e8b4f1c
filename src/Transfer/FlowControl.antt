-- ===== src/Transfer/FlowControl.antt =====
-- `FlowController` of src/transfer/flow_control.cpp. Durations are counted in milliseconds and times in
-- nanoseconds; the time of a call is an argument. The window fields are 32-bit unsigned numbers.
pub mod Window
pub mod Rate
use hyper_share.Prelude.{
  ℕ, ◌+◌, ◌-◌, ◌*◌, ◌/◌, ◌%◌, ◌^◌, Bool, true, false, List, [], ◌∷◌, ◌++◌, ltb, leb, if◌then◌else◌,
  min, max,
}

pub record FlowController : Type 0 where
  pub window_size : ℕ
  pub slow_start_threshold : ℕ
  pub congestion_window : ℕ
  pub in_slow_start : Bool
  pub estimated_rtt : ℕ
  pub rtt_variance : ℕ
  pub min_rtt : ℕ
  pub max_requests_per_second : ℕ
  pub recent_requests : List ℕ
  pub last_rate_update : ℕ

unfoldable pub new_flow_controller : ℕ → FlowController
new_flow_controller now = record {
  window_size = 1;
  slow_start_threshold = 1024;
  congestion_window = 1;
  in_slow_start = true;
  estimated_rtt = 100;
  rtt_variance = 50;
  min_rtt = 10;
  max_requests_per_second = 1000;
  recent_requests = [];
  last_rate_update = now;
}

unfoldable pub update_congestion_window : FlowController → FlowController
update_congestion_window c = record c {
  window_size = max (min c.congestion_window c.slow_start_threshold) 1;
}

unfoldable pub enter_congestion_avoidance : FlowController → FlowController
enter_congestion_avoidance c = record c { in_slow_start = false }

-- `congestion_window_++`
unfoldable pub grow : FlowController → FlowController
grow c = record c { congestion_window = (c.congestion_window + 1) % 2 ^ 32 }

-- The first argument is the static `ack_count`, which all controllers of the process share.
unfoldable pub count_ack : ℕ → FlowController → ℕ × FlowController
count_ack ack_count c =
    if c.in_slow_start
    then (
      ack_count,
      (if leb c.slow_start_threshold (grow c).congestion_window
          then enter_congestion_avoidance (grow c)
          else grow c),
    )
    else (let more : ℕ = (ack_count + 1) % 2 ^ 32 in
        if leb c.congestion_window more then (0, grow c) else (more, c))

unfoldable pub on_ack_received : ℕ → FlowController → ℕ × FlowController
on_ack_received ack_count c =
    let (ack_count', c') = count_ack ack_count c in (ack_count', update_congestion_window c')

unfoldable pub on_timeout : FlowController → FlowController
on_timeout c = update_congestion_window (record c {
  slow_start_threshold = max (c.congestion_window / 2) 2;
  congestion_window = 1;
  in_slow_start = true;
})

-- `std::abs(a - b)`
abbrev pub distance : ℕ → ℕ → ℕ
distance a b = if leb a b then b - a else a - b

-- 0.875 and 0.125 are exact as doubles, so that for durations below 2 ^ 50 the sum is exact, and the
-- cast rounds it down.
unfoldable pub update_rtt : ℕ → FlowController → FlowController
update_rtt rtt c = record c {
  min_rtt = min c.min_rtt rtt;
  rtt_variance = (7 * c.rtt_variance + distance rtt c.estimated_rtt) / 8;
  estimated_rtt = (7 * c.estimated_rtt + rtt) / 8;
}

unfoldable pub get_timeout : FlowController → ℕ
get_timeout c = max (c.estimated_rtt + 4 * c.rtt_variance) 100

abbrev pub second : ℕ
second = 1000000000

-- The requests from the cutoff on.
unfoldable pub recent_count : ℕ → List ℕ → ℕ
recent_count cutoff [] = 0
recent_count cutoff (t ∷ ts) = (if leb cutoff t then 1 else 0) + recent_count cutoff ts

unfoldable pub drop_old : ℕ → List ℕ → List ℕ
drop_old cutoff [] = []
drop_old cutoff (t ∷ ts) = let rest = drop_old cutoff ts in if ltb t cutoff then rest else t ∷ ts

unfoldable pub update_rate_limit : ℕ → FlowController → FlowController
update_rate_limit now c = record c {
  recent_requests = drop_old (now - second) c.recent_requests;
  last_rate_update = now;
}

-- The clock is read twice: `now` for the limit and `now'` for the count.
unfoldable pub can_send_request : ℕ → ℕ → FlowController → FlowController × Bool
can_send_request now now' c =
    let c' = update_rate_limit now c in
    (c', ltb (recent_count (now' - second) c'.recent_requests) c'.max_requests_per_second)

unfoldable pub on_request_sent : ℕ → FlowController → FlowController
on_request_sent now c = record c { recent_requests = c.recent_requests ++ now ∷ [] }

unfoldable pub set_max_requests_per_second : ℕ → FlowController → FlowController
set_max_requests_per_second max_rate c = record c { max_requests_per_second = max_rate }
