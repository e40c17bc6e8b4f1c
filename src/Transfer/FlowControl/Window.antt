-- ===== src/Transfer/FlowControl/Window.antt =====
-- The congestion window of the flow controller.
use hyper_share.Prelude.{
  ℕ, zero, suc, ◌+◌, ◌%◌, ◌^◌, ◌≤◌, ◌<◌, ◌≡◌, refl, ◌∙◌, true, false, leb, min, max, arith, List,
  [], ◌∷◌,
}
use hyper_share.Transfer.FlowControl.{
  FlowController, new_flow_controller, update_congestion_window, enter_congestion_avoidance, grow,
  count_ack, on_ack_received, on_timeout, update_rtt,
}

-- What happens to a controller: an acknowledgement, a timeout, or a measured round trip.
pub data Event : Type 0 where
  ack timeout : Event
  measured : ℕ → Event

abbrev pub handle : Event → ℕ × FlowController → ℕ × FlowController
handle ack (ack_count, c) = on_ack_received ack_count c
handle timeout (ack_count, c) = (ack_count, on_timeout c)
handle (measured rtt) (ack_count, c) = (ack_count, update_rtt rtt c)

-- The window is open, not above the threshold, and the threshold is at least 2; slow start lasts as
-- long as the congestion window is below the threshold.
pub record IsOpen (c : FlowController) : Type 0 where
  pub window_pos : 1 ≤ c.window_size
  pub window_le : c.window_size ≤ c.slow_start_threshold
  pub threshold_ge : 2 ≤ c.slow_start_threshold
  pub threshold_range : c.slow_start_threshold < 2 ^ 32
  pub window_range : c.congestion_window < 2 ^ 32
  pub slow_start : c.in_slow_start ≡ true → c.congestion_window < c.slow_start_threshold

count_ack-IsOpen :
    (ack_count : ℕ) (c : FlowController) → IsOpen c → IsOpen (on_ack_received ack_count c).1
unfolding on_ack_received count_ack grow update_congestion_window enter_congestion_avoidance
count_ack-IsOpen ack_count c v = record {
  window_pos = ground (arith, v);
  window_le = ground (arith, v);
  threshold_ge = ground (arith, v);
  threshold_range = ground (arith, v);
  window_range = ground (arith, v);
  slow_start = ground (arith, v);
}

on_timeout-IsOpen : (c : FlowController) → IsOpen c → IsOpen (on_timeout c)
unfolding on_timeout update_congestion_window
on_timeout-IsOpen c v = record {
  window_pos = omega arith;
  window_le = omega arith;
  threshold_ge = omega arith;
  threshold_range = omega (arith, v.window_range);
  window_range = omega arith;
  slow_start = λ e. omega arith;
}

update_rtt-IsOpen : (rtt : ℕ) (c : FlowController) → IsOpen c → IsOpen (update_rtt rtt c)
unfolding update_rtt
update_rtt-IsOpen rtt c v = record {
  window_pos = v.window_pos;
  window_le = v.window_le;
  threshold_ge = v.threshold_ge;
  threshold_range = v.threshold_range;
  window_range = v.window_range;
  slow_start = v.slow_start;
}

-- The events in their order, from the first.
abbrev pub handle_all : List Event → ℕ × FlowController → ℕ × FlowController
handle_all [] st = st
handle_all (e ∷ es) st = handle_all es (handle e st)

-- Whatever acknowledgements, timeouts and round trips come in whatever order, an open window stays
-- open: at least 1, at most the threshold, which stays at least 2.
pub handle_all-IsOpen :
    (events : List Event) (ack_count : ℕ) (c : FlowController)
    → IsOpen c
    → IsOpen (handle_all events (ack_count, c)).1
handle_all-IsOpen [] ack_count c v = v
handle_all-IsOpen (ack ∷ es) ack_count c v =
    handle_all-IsOpen es (on_ack_received ack_count c).0 (on_ack_received ack_count c).1
      (count_ack-IsOpen ack_count c v)
handle_all-IsOpen (timeout ∷ es) ack_count c v =
    handle_all-IsOpen es ack_count (on_timeout c) (on_timeout-IsOpen c v)
handle_all-IsOpen (measured rtt ∷ es) ack_count c v =
    handle_all-IsOpen es ack_count (update_rtt rtt c) (update_rtt-IsOpen rtt c v)

pub new_flow_controller-IsOpen : (now : ℕ) → IsOpen (new_flow_controller now)
unfolding new_flow_controller
new_flow_controller-IsOpen now = record {
  window_pos = omega arith;
  window_le = omega arith;
  threshold_ge = omega arith;
  threshold_range = omega arith;
  window_range = omega arith;
  slow_start = λ e. omega arith;
}

-- `n` acknowledgements.
unfoldable pub acks : ℕ → ℕ × FlowController → ℕ × FlowController
acks zero st = st
acks (suc n) st = acks n (handle ack st)

on_ack_received_slow :
    (ack_count : ℕ) (c : FlowController)
    → IsOpen c
    → c.in_slow_start ≡ true
    → c.congestion_window + 1 < c.slow_start_threshold
    → on_ack_received ack_count c ≡ (
      ack_count,
      record c {
        congestion_window = c.congestion_window + 1;
        window_size = c.congestion_window + 1;
      },
    )
unfolding on_ack_received count_ack grow update_congestion_window
on_ack_received_slow ack_count c v e h =
    let small : (c.congestion_window + 1) % 2 ^ 32 ≡ c.congestion_window + 1 =
      omega (arith, v.threshold_range) in
    let below : leb c.slow_start_threshold (c.congestion_window + 1) ≡ false = ground arith in
    let window : max (min (c.congestion_window + 1) c.slow_start_threshold) 1
        ≡ c.congestion_window + 1 =
      omega arith in
    rw (e, small, below, window)

-- In slow start each acknowledgement opens the window by one, as long as the threshold is not
-- reached: `n` of them open it by `n`.
pub acks_slow_start :
    (n ack_count : ℕ) (c : FlowController)
    → IsOpen c
    → c.in_slow_start ≡ true
    → c.window_size ≡ c.congestion_window
    → c.congestion_window + n < c.slow_start_threshold
    → (acks n (ack_count, c)).1.window_size ≡ c.window_size + n
unfolding acks
acks_slow_start zero ack_count c v e w h = omega arith
acks_slow_start (suc n) ack_count c v e w h =
    let one = on_ack_received_slow ack_count c v e (omega arith) in
    let c' : FlowController = record c {
      congestion_window = c.congestion_window + 1;
      window_size = c.congestion_window + 1;
    } in
    let v' : IsOpen c' = record {
      window_pos = omega arith;
      window_le = omega arith;
      threshold_ge = v.threshold_ge;
      threshold_range = v.threshold_range;
      window_range = omega (arith, v.threshold_range);
      slow_start = λ e. omega arith;
    } in
    rw (acks, one) (omega (arith, acks_slow_start n ack_count c' v' e refl (omega arith), w))

-- The state of congestion avoidance.
record IsAvoiding (threshold n : ℕ) (c : FlowController) : Type 0 where
  no_slow_start : c.in_slow_start ≡ false
  same_threshold : c.slow_start_threshold ≡ threshold
  above : threshold ≤ c.congestion_window
  room : c.congestion_window + n < 2 ^ 32
  clamped : c.window_size ≡ threshold

on_ack_received-IsAvoiding :
    (threshold n ack_count : ℕ) (c : FlowController)
    → 1 ≤ threshold
    → IsAvoiding threshold (suc n) c
    → IsAvoiding threshold n (on_ack_received ack_count c).1
unfolding on_ack_received count_ack grow update_congestion_window
on_ack_received-IsAvoiding threshold n ack_count c h v = record {
  no_slow_start = ground (arith, v);
  same_threshold = ground (arith, v);
  above = ground (arith, v);
  room = ground (arith, v);
  clamped = ground (arith, v);
}

acks-IsAvoiding :
    (threshold n ack_count : ℕ) (c : FlowController)
    → 1 ≤ threshold
    → IsAvoiding threshold n c
    → IsAvoiding threshold 0 (acks n (ack_count, c)).1
unfolding acks
acks-IsAvoiding threshold zero ack_count c h v = v
acks-IsAvoiding threshold (suc n) ack_count c h v =
    acks-IsAvoiding threshold n (on_ack_received ack_count c).0 (on_ack_received ack_count c).1 h
      (on_ack_received-IsAvoiding threshold n ack_count c h v)

-- In congestion avoidance the window never opens: it stays at the threshold for any number of
-- acknowledgements that the 32-bit congestion window can count.
pub acks_congestion_avoidance :
    (n ack_count : ℕ) (c : FlowController)
    → IsOpen c
    → c.in_slow_start ≡ false
    → c.window_size ≡ c.slow_start_threshold
    → c.slow_start_threshold ≤ c.congestion_window
    → c.congestion_window + n < 2 ^ 32
    → (acks n (ack_count, c)).1.window_size ≡ c.window_size
acks_congestion_avoidance n ack_count c v e w h r =
    let u =
      acks-IsAvoiding c.slow_start_threshold n ack_count c (omega (arith, v.threshold_ge))
        (record { no_slow_start = e; same_threshold = refl; above = h; room = r; clamped = w }) in
    u.clamped ∙ omega (arith, w)
