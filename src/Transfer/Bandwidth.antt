-- ===== src/Transfer/Bandwidth.antt =====
-- `BandwidthLimiter` of src/transfer/bandwidth_limiter.cpp, a token bucket with a queue. Token counts
-- are 64-bit unsigned numbers, times are in nanoseconds, and the time of a call is an argument.
pub mod Tokens
pub mod Queue
use hyper_share.Prelude.{
  ℕ, zero, suc, ◌+◌, ◌-◌, ◌*◌, ◌/◌, ◌%◌, ◌^◌, Bool, true, false, ◌&&◌, ◌||◌, not, List, [], ◌∷◌,
  length, ltb, leb, ◌==◌, if◌then◌else◌, min,
}

pub data Priority : Type 0 where
  low normal high : Priority

abbrev pub rank : Priority → ℕ
rank low = 0
rank normal = 1
rank high = 2

pub record Request : Type 0 where
  pub priority : Priority
  pub bytes : ℕ
  pub timestamp : ℕ

-- `operator<` of a request, for the maximum heap.
abbrev pub is_before : Request → Request → Bool
is_before a b =
    if not (rank a.priority == rank b.priority)
    then ltb (rank a.priority) (rank b.priority)
    else ltb b.timestamp a.timestamp

-- `std::priority_queue`, as the list of its elements from the top. Of elements that the order does
-- not tell apart, which the standard leaves open, the older one stands above.
unfoldable pub heap_push : Request → List Request → List Request
heap_push r [] = r ∷ []
heap_push r (q ∷ qs) = if is_before q r then r ∷ q ∷ qs else q ∷ heap_push r qs

pub record BandwidthLimiter : Type 0 where
  pub max_bandwidth : ℕ
  pub bucket_capacity : ℕ
  pub available_tokens : ℕ
  pub last_refill : ℕ
  pub pending_requests : List Request

unfoldable pub new_bandwidth_limiter : ℕ → BandwidthLimiter
new_bandwidth_limiter now = record {
  max_bandwidth = 1024 * 1024;
  bucket_capacity = 64 * 1024;
  available_tokens = 64 * 1024;
  last_refill = now;
  pending_requests = [];
}

-- `duration_cast<milliseconds>(now - last_refill_).count()`
abbrev pub elapsed_ms : ℕ → BandwidthLimiter → ℕ
elapsed_ms now b = (now - b.last_refill) / 1000000

-- `(max_bandwidth_ * elapsed.count()) / 1000`
abbrev pub tokens_to_add : ℕ → BandwidthLimiter → ℕ
tokens_to_add now b = b.max_bandwidth * elapsed_ms now b % 2 ^ 64 / 1000

unfoldable pub update_tokens : ℕ → BandwidthLimiter → BandwidthLimiter
update_tokens now b =
    if ltb 0 (elapsed_ms now b)
    then record b {
      available_tokens =
          min ((b.available_tokens + tokens_to_add now b) % 2 ^ 64) b.bucket_capacity;
      last_refill = now;
    }
    else b

unfoldable pub set_max_bandwidth : ℕ → BandwidthLimiter → BandwidthLimiter
set_max_bandwidth bytes_per_second b = record b { max_bandwidth = bytes_per_second }

unfoldable pub set_bucket_capacity : ℕ → BandwidthLimiter → BandwidthLimiter
set_bucket_capacity capacity b = record b {
  bucket_capacity = capacity;
  available_tokens = min b.available_tokens capacity;
}

unfoldable pub can_send : ℕ → ℕ → BandwidthLimiter → BandwidthLimiter × Bool
can_send now bytes b = let b' = update_tokens now b in (b', leb bytes b'.available_tokens)

unfoldable pub consume_tokens : ℕ → BandwidthLimiter → BandwidthLimiter
consume_tokens bytes b =
    if leb bytes b.available_tokens
    then record b { available_tokens = b.available_tokens - bytes }
    else b

abbrev pub refill_bucket : ℕ → BandwidthLimiter → BandwidthLimiter
refill_bucket = update_tokens

unfoldable pub add_request : ℕ → Priority → ℕ → BandwidthLimiter → BandwidthLimiter
add_request now priority bytes b = record b {
  pending_requests =
      heap_push (record { priority = priority; bytes = bytes; timestamp = now }) b.pending_requests;
}

-- The loop of `process_pending_requests`, on the tokens and the queue: what is left of both, and what
-- is processed.
unfoldable pub process_loop : ℕ → List Request → ℕ × List Request × List (Priority × ℕ)
process_loop available [] = (available, [], [])
process_loop available (r ∷ rs) =
    let (available', rs', processed) = process_loop (available - r.bytes) rs in
    if ltb 0 available && leb r.bytes available
    then (available', rs', (r.priority, r.bytes) ∷ processed)
    else (available, r ∷ rs, [])

unfoldable pub process_pending_requests :
    ℕ → BandwidthLimiter → BandwidthLimiter × List (Priority × ℕ)
process_pending_requests now b =
    let b' = update_tokens now b in
    let (available, pending, processed) = process_loop b'.available_tokens b'.pending_requests in
    (record b' { available_tokens = available; pending_requests = pending }, processed)

unfoldable pub get_pending_requests_count : BandwidthLimiter → ℕ
get_pending_requests_count b = length b.pending_requests
