-- ===== src/Transfer/Bandwidth/Tokens.antt =====
-- The tokens of the bandwidth limiter, over its whole life.
use native.Mathlib.Nat.{mul-le-mul_left, mul-le-mul_right, mod-le}
use hyper_share.Prelude.{
  All, ℕ, ◌+◌, ◌-◌, ◌*◌, ◌/◌, ◌%◌, ◌^◌, ◌≤◌, ◌<◌, ◌≡◌, refl, inl, inr, true, List, [], ◌∷◌, ltb,
  leb, if◌then◌else◌, min, arith, Bool-cases,
}
use hyper_share.Transfer.Bandwidth.{
  Priority, BandwidthLimiter, elapsed_ms, tokens_to_add, update_tokens, can_send, consume_tokens,
  add_request, process_pending_requests, set_max_bandwidth, set_bucket_capacity,
}
use hyper_share.Transfer.Bandwidth.Queue.{IsHeap, total_bytes, process_pending_requests-Processes}

-- The calls of a limiter, with the times at which they read the clock.
pub data Call : Type 0 where
  refill : ℕ → Call
  ask : (now bytes : ℕ) → Call
  consume : ℕ → Call
  add : ℕ → Priority → ℕ → Call
  process : ℕ → Call
  set_bandwidth set_capacity : ℕ → Call

-- The limiter after a call, with the tokens that the call has spent.
abbrev pub call : Call → BandwidthLimiter → BandwidthLimiter × ℕ
call (refill now) b = (update_tokens now b, 0)
call (ask now bytes) b = ((can_send now bytes b).0, 0)
call (consume bytes) b = (consume_tokens bytes b, if leb bytes b.available_tokens then bytes else 0)
call (add now priority bytes) b = (add_request now priority bytes b, 0)
call (process now) b =
    let (b', processed) = process_pending_requests now b in (b', total_bytes processed)
call (set_bandwidth bytes_per_second) b = (set_max_bandwidth bytes_per_second b, 0)
call (set_capacity capacity) b = (set_bucket_capacity capacity b, 0)

-- A call that sets no bandwidth above `most`.
abbrev pub Keeps : (most : ℕ) → Call → Type 0
Keeps most (set_bandwidth bytes_per_second) = bytes_per_second ≤ most
Keeps most _ = Unit

abbrev pub call_all : List Call → BandwidthLimiter → BandwidthLimiter × ℕ
call_all [] b = (b, 0)
call_all (c ∷ cs) b =
    let (b', spent) = call c b in let (b'', more) = call_all cs b' in (b'', spent + more)

-- The bucket is not overfull and the queue is in order.
pub record IsSane (b : BandwidthLimiter) : Type 0 where
  pub within : b.available_tokens ≤ b.bucket_capacity
  pub heap : IsHeap b.pending_requests

-- In billionths of a token: what a call spends and leaves is at most what was there, and what the
-- bandwidth `most` gives for the time by which the refill moved on.
record Spends (most : ℕ) (b b' : BandwidthLimiter) (spent : ℕ) : Type 0 where
  slow : b'.max_bandwidth ≤ most
  paid :
      1000000000 * (spent + b'.available_tokens) + most * b.last_refill
      ≤ 1000000000 * b.available_tokens + most * b'.last_refill

update_tokens-Spends :
    (most now : ℕ) (b : BandwidthLimiter)
    → b.max_bandwidth ≤ most
    → Spends most b (update_tokens now b) 0
unfolding update_tokens
update_tokens-Spends most now b h = elim (Bool-cases (ltb 0 (elapsed_ms now b))) [
  | inr none_yet ↦ rw none_yet (record { slow = h; paid = omega arith })
  | inl some_time ↦
      let later : b.last_refill ≤ now = ground (arith, some_time) in
      let span : most * (b.last_refill + elapsed_ms now b * 1000000) ≤ most * now =
        mul-le-mul_left most (omega arith) in
      let wrap : b.max_bandwidth * elapsed_ms now b % 2 ^ 64 ≤ b.max_bandwidth * elapsed_ms now b =
        mod-le (b.max_bandwidth * elapsed_ms now b) (2 ^ 64) in
      let rate : b.max_bandwidth * elapsed_ms now b ≤ most * elapsed_ms now b =
        mul-le-mul_right (elapsed_ms now b) h in
      rw some_time (record { slow = h; paid = omega (arith, span, wrap, rate) })
]

Spends-trans :
    (most : ℕ) (b b' b'' : BandwidthLimiter) (m n : ℕ)
    → Spends most b b' m
    → Spends most b' b'' n
    → Spends most b b'' (m + n)
Spends-trans most b b' b'' m n p q = record { slow = q.slow; paid = omega (arith, p.paid, q.paid) }

process-Spends :
    (most now : ℕ) (b : BandwidthLimiter)
    → b.max_bandwidth ≤ most
    → let r = process_pending_requests now b in Spends most b r.0 (total_bytes r.1)
unfolding process_pending_requests
process-Spends most now b h =
    let u = update_tokens-Spends most now b h in
    let p = process_pending_requests-Processes now b in
    record { slow = u.slow; paid = omega (arith, u.paid, p.paid) }

call-Spends :
    (most : ℕ) (c : Call) (b : BandwidthLimiter)
    → b.max_bandwidth ≤ most
    → Keeps most c
    → Spends most b (call c b).0 (call c b).1
unfolding can_send consume_tokens add_request set_max_bandwidth set_bucket_capacity
call-Spends most (refill now) b h k = update_tokens-Spends most now b h
call-Spends most (ask now bytes) b h k =
    let u = update_tokens-Spends most now b h in record { slow = u.slow; paid = u.paid }
call-Spends most (consume bytes) b h k = elim (Bool-cases (leb bytes b.available_tokens)) [
  | inl enough ↦ rw enough (record { slow = h; paid = ground (arith, enough) })
  | inr few ↦ rw few (record { slow = h; paid = omega arith })
]
call-Spends most (add now priority bytes) b h k = record { slow = h; paid = omega arith }
call-Spends most (process now) b h k = process-Spends most now b h
call-Spends most (set_bandwidth bytes_per_second) b h k = record { slow = k; paid = omega arith }
call-Spends most (set_capacity capacity) b h k = record { slow = h; paid = omega arith }

call_all-Spends :
    (most : ℕ) (cs : List Call) (b : BandwidthLimiter)
    → b.max_bandwidth ≤ most
    → All (Keeps most) cs
    → Spends most b (call_all cs b).0 (call_all cs b).1
call_all-Spends most [] b h ks = record { slow = h; paid = omega arith }
call_all-Spends most (c ∷ cs) b h (k, ks) =
    let first = call-Spends most c b h k in
    Spends-trans most b (call c b).0 (call_all cs (call c b).0).0 (call c b).1
      (call_all cs (call c b).0).1 first (call_all-Spends most cs (call c b).0 first.slow ks)

-- The traffic that any calls let through, in any order, with any times, among them changes of the
-- bandwidth and of the capacity: where the bandwidth is never above `most`, it is at most what was in
-- the bucket and what `most` gives from the first refill time to the last one, in billionths of a
-- token since the times are in nanoseconds.
pub call_all-bounded :
    (most : ℕ) (cs : List Call) (b : BandwidthLimiter)
    → b.max_bandwidth ≤ most
    → All (Keeps most) cs
    → let r = call_all cs b in
      1000000000 * r.1 + most * b.last_refill
      ≤ 1000000000 * b.available_tokens + most * r.0.last_refill
call_all-bounded most cs b h ks = let p = call_all-Spends most cs b h ks in omega (arith, p.paid)

-- The refills at the given times, each of them at least a millisecond after the one before, and so
-- early that the bandwidth gives less than one token.
abbrev pub AreHasty : ℕ → ℕ → List ℕ → Type 0
AreHasty bandwidth from [] = Unit
AreHasty bandwidth from (t ∷ ts) =
    (1000000 ≤ t - from) × (bandwidth * ((t - from) / 1000000) < 1000) × AreHasty bandwidth t ts

abbrev pub refill_all : List ℕ → BandwidthLimiter → BandwidthLimiter
refill_all [] b = b
refill_all (t ∷ ts) b = refill_all ts (update_tokens t b)

update_tokens_hasty :
    (t : ℕ) (b : BandwidthLimiter)
    → b.available_tokens < 2 ^ 64
    → b.available_tokens ≤ b.bucket_capacity
    → 1000000 ≤ t - b.last_refill
    → b.max_bandwidth * ((t - b.last_refill) / 1000000) < 1000
    → update_tokens t b ≡ record b { last_refill = t }
unfolding update_tokens
update_tokens_hasty t b r v h h' =
    let some_time : ltb 0 (elapsed_ms t b) ≡ true = ground (arith, h) in
    let same : min ((b.available_tokens + tokens_to_add t b) % 2 ^ 64) b.bucket_capacity
        ≡ b.available_tokens =
      omega (arith, h', r, v) in
    rw (some_time, same)

-- The rounded part of a token is lost at each refill, since the refill time moves on all the same: a
-- bucket that is polled so often that it earns less than one token each time does not fill, however
-- long that goes on.
pub refill_all_starved :
    (times : List ℕ) (b : BandwidthLimiter)
    → b.available_tokens < 2 ^ 64
    → b.available_tokens ≤ b.bucket_capacity
    → AreHasty b.max_bandwidth b.last_refill times
    → (refill_all times b).available_tokens ≡ b.available_tokens
refill_all_starved [] b r v h = refl
refill_all_starved (t ∷ ts) b r v (h, h', hs) =
    rw (refill_all, update_tokens_hasty t b r v h h')
      (refill_all_starved ts (record b { last_refill = t }) r v hs)
