-- ===== src/Transfer/Bandwidth/Queue.antt =====
-- The queue of the bandwidth limiter.
use hyper_share.Prelude.{
  ℕ, ◌+◌, ◌-◌, ◌<◌, ◌≡◌, refl, ap, ◌⊎◌, inl, inr, false, ◌&&◌, List, [], ◌∷◌, ◌++◌, map, ltb, leb,
  arith, Bool-cases,
}
use hyper_share.Transfer.Bandwidth.{
  Priority, Request, is_before, heap_push, BandwidthLimiter, process_loop, process_pending_requests,
  update_tokens,
}

pub total_bytes : List (Priority × ℕ) → ℕ
total_bytes [] = 0
total_bytes ((p, n) ∷ rest) = n + total_bytes rest

abbrev pub entry : Request → Priority × ℕ
entry r = (r.priority, r.bytes)

-- Nothing is left, or there is no token, or the request on top is larger than the tokens.
abbrev pub Stops : ℕ → List Request → Type 0
Stops available [] = Unit
Stops available (r ∷ rs) = (available ≡ 0) ⊎ (available < r.bytes)

-- A run on the queue: it processes a first part of it, in its order, pays for just these requests,
-- and stops only where the next one cannot be paid.
pub record Processes (available : ℕ) (queue : List Request)
    (r : ℕ × List Request × List (Priority × ℕ)) : Type 0 where
  pub done : List Request
  pub in_order : queue ≡ done ++ r.1
  pub reported : r.2 ≡ map entry done
  pub paid : r.0 + total_bytes r.2 ≡ available
  pub stops : Stops r.0 r.1

process_loop-Processes :
    (available : ℕ) (queue : List Request)
    → Processes available queue (process_loop available queue)
unfolding process_loop total_bytes
process_loop-Processes available [] = record {
  done = [];
  in_order = refl;
  reported = refl;
  paid = omega arith;
  stops = _;
}
process_loop-Processes available (r ∷ rs) =
    elim (Bool-cases (ltb 0 available && leb r.bytes available)) [
      | inr stop ↦ rw stop (record {
        done = [];
        in_order = refl;
        reported = refl;
        paid = omega arith;
        stops = ground (arith, stop);
      })
      | inl go ↦
          let rest = process_loop-Processes (available - r.bytes) rs in
          rw go (record {
            done = r ∷ rest.done;
            in_order = ap (◌∷◌ r) rest.in_order;
            reported = ap (◌∷◌ (entry r)) rest.reported;
            paid = ground (arith, go, rest.paid);
            stops = rest.stops;
          })
    ]

-- After the refill, `process_pending_requests` takes requests off the top of the queue, in its order,
-- reports just these, pays their bytes with the tokens, and stops only when the queue is empty, no
-- token is left or the request on top is larger than what is left.
pub process_pending_requests-Processes :
    (now : ℕ) (b : BandwidthLimiter)
    → let r = process_pending_requests now b in
      Processes
        (update_tokens now b).available_tokens
        (update_tokens now b).pending_requests
        (r.0.available_tokens, r.0.pending_requests, r.1)
unfolding process_pending_requests
process_pending_requests-Processes now b =
    process_loop-Processes (update_tokens now b).available_tokens
      (update_tokens now b).pending_requests

-- The request on top is not before any other one.
abbrev pub IsTop : Request → List Request → Type 0
IsTop r [] = Unit
IsTop r (q ∷ qs) = (is_before r q ≡ false) × IsTop r qs

abbrev pub IsHeap : List Request → Type 0
IsHeap [] = Unit
IsHeap (q ∷ qs) = IsTop q qs × IsHeap qs

is_before_trans :
    (a b c : Request) → is_before a b ≡ false → is_before b c ≡ false → is_before a c ≡ false
is_before_trans a b c h k = ground arith

IsTop-trans : (a b : Request) (qs : List Request) → is_before a b ≡ false → IsTop b qs → IsTop a qs
IsTop-trans a b [] h t = _
IsTop-trans a b (q ∷ qs) h (t, ts) = (is_before_trans a b q h t, IsTop-trans a b qs h ts)

IsTop-heap_push :
    (a r : Request) (qs : List Request)
    → is_before a r ≡ false
    → IsTop a qs
    → IsTop a (heap_push r qs)
unfolding heap_push
IsTop-heap_push a r [] h t = (h, _)
IsTop-heap_push a r (q ∷ qs) h (t, ts) = elim (Bool-cases (is_before q r)) [
  | inl e ↦ rw e (h, (t, ts))
  | inr e ↦ rw e (t, IsTop-heap_push a r qs h ts)
]

pub heap_push-IsHeap : (r : Request) (qs : List Request) → IsHeap qs → IsHeap (heap_push r qs)
unfolding heap_push
heap_push-IsHeap r [] h = (_, _)
heap_push-IsHeap r (q ∷ qs) (h, hs) = elim (Bool-cases (is_before q r)) [
  | inl e ↦
      let back : is_before r q ≡ false = ground (arith, e) in
      rw e ((back, IsTop-trans r q qs back h), (h, hs))
  | inr e ↦ rw e (IsTop-heap_push q r qs e h, heap_push-IsHeap r qs hs)
]

pub process_loop-IsHeap :
    (available : ℕ) (queue : List Request) → IsHeap queue → IsHeap (process_loop available queue).1
unfolding process_loop
process_loop-IsHeap available [] h = _
process_loop-IsHeap available (r ∷ rs) (h, hs) =
    elim (Bool-cases (ltb 0 available && leb r.bytes available)) [
      | inr stop ↦ rw stop (h, hs)
      | inl go ↦ rw go (process_loop-IsHeap (available - r.bytes) rs hs)
    ]
