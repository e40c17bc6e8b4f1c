-- ===== src/Transfer/Session/Requests.antt =====
-- Which chunks `request_next_chunks` asks for.
use hyper_share.Prelude.{
  ℕ, zero, suc, ◌+◌, ◌-◌, ◌≤◌, ◌<◌, ◌≡◌, refl, ap, ◌∙◌, ◌⊎◌, inl, inr, Bool, true, false, ◌&&◌, ltb,
  arith, Bool-cases,
}
use hyper_share.Storage.Metadata.{FileMetadata}
use hyper_share.Transfer.Bits.{bits_size, bit_at, count}
use hyper_share.Transfer.Session.{
  TransferSession, Outcome, request_one, request_loop, request_next_chunks, can_request,
  after_request, success, throws_out_of_range,
}
use hyper_share.Transfer.Session.Round.{
  Requested, Requested-refl, Requested-trans, IsSized, RoundDone, request_one-RoundDone,
}

-- The loop ends because the window is full or because no chunk is left.
record LoopDone (s : TransferSession) (window_size k : ℕ) (r : TransferSession × ℕ × Bool)
    : Type 0 where
  no_throw : r.2 ≡ false
  within : r.1 ≤ window_size
  number : ℕ
  counted : r.1 ≡ k + number
  changes : Requested s r.0 number
  ended : (r.1 ≡ window_size) ⊎ (r.0.next_chunk_to_request ≡ s.metadata.chunk_count)

LoopDone-stop :
    (s : TransferSession) (window_size k : ℕ)
    → k ≤ window_size
    → (k ≡ window_size) ⊎ (s.next_chunk_to_request ≡ s.metadata.chunk_count)
    → LoopDone s window_size k (s, k, false)
LoopDone-stop s window_size k h e = record {
  no_throw = refl;
  within = h;
  number = 0;
  counted = omega arith;
  changes = Requested-refl s;
  ended = e;
}

LoopDone-step :
    (s : TransferSession) (window_size k : ℕ) (one r : TransferSession × ℕ × Bool)
    → RoundDone s one
    → LoopDone one.0 window_size (k + one.1) r
    → LoopDone s window_size k r
LoopDone-step s window_size k one r d l = record {
  no_throw = l.no_throw;
  within = l.within;
  number = one.1 + l.number;
  counted = omega (arith, l.counted);
  changes = Requested-trans s one.0 r.0 one.1 l.number d.changes l.changes;
  ended = omega (arith, l.ended, ap (λ (m : FileMetadata). m.chunk_count) d.changes.same_metadata);
}

RoundDone-IsSized :
    (s : TransferSession) (one : TransferSession × ℕ × Bool)
    → IsSized s
    → RoundDone s one
    → IsSized one.0 × (one.0.metadata.chunk_count ≡ s.metadata.chunk_count)
RoundDone-IsSized s one v d =
    let e : one.0.metadata.chunk_count ≡ s.metadata.chunk_count =
      ap (λ (m : FileMetadata). m.chunk_count) d.changes.same_metadata in
    (
      record {
        requested_size = d.changes.same_size ∙ v.requested_size;
        chunks_fit = omega (arith, e, v.chunks_fit);
      },
      e,
    )

request_loop-LoopDone :
    (rounds now window_size k : ℕ) (s : TransferSession)
    → IsSized s
    → k ≤ window_size
    → s.next_chunk_to_request ≤ s.metadata.chunk_count
    → s.metadata.chunk_count ≤ s.next_chunk_to_request + rounds
    → LoopDone s window_size k (request_loop rounds now window_size k s)
unfolding request_loop
request_loop-LoopDone zero now window_size k s v hk lo hi =
    LoopDone-stop s window_size k hk (inr (omega arith))
request_loop-LoopDone (suc rounds) now window_size k s v hk lo hi =
    elim (Bool-cases (ltb k window_size && ltb s.next_chunk_to_request s.metadata.chunk_count)) [
      | inr stop ↦ rw (stop, request_loop) (LoopDone-stop s window_size k hk (ground (arith, stop)))
      | inl go ↦
          let d : RoundDone s (request_one now s) =
            request_one-RoundDone now s v (ground (arith, go)) in
          let (v', e) = RoundDone-IsSized s (request_one now s) v d in
          let hk' : k + (request_one now s).1 ≤ window_size = ground (arith, go, d.at_most_one) in
          let lo' : (request_one now s).0.next_chunk_to_request
              ≤ (request_one now s).0.metadata.chunk_count =
            ground (arith, go, d.moved, e) in
          let l =
            request_loop-LoopDone rounds now window_size (k + (request_one now s).1)
              (request_one now s).0 v' hk' lo' (omega (arith, d.moved, e)) in
          rw (go, request_loop, d.no_throw)
            (LoopDone-step s window_size k (request_one now s) _ d l)
    ]

-- What a call of `request_next_chunks` has done.
pub record RequestDone (s : TransferSession) (window_size : ℕ) (r : TransferSession × Outcome)
    : Type 0 where
  pub succeeds : r.1 ≡ success
  pub number : ℕ
  pub within : number ≤ window_size
  pub added : count r.0.requested_chunks ≡ count s.requested_chunks + number
  pub state_after : r.0.state ≡ after_request s.state number
  pub same_received : r.0.received_chunks ≡ s.received_chunks
  pub kept : (i : ℕ) → bit_at s.requested_chunks i ≡ true → bit_at r.0.requested_chunks i ≡ true
  pub covered :
      (i : ℕ)
      → s.next_chunk_to_request ≤ i
      → i < r.0.next_chunk_to_request
      → (bit_at r.0.requested_chunks i ≡ true) ⊎ (bit_at r.0.received_chunks i ≡ true)
  pub ended : (number ≡ window_size) ⊎ (r.0.next_chunk_to_request ≡ s.metadata.chunk_count)

RequestDone-LoopDone :
    (s : TransferSession) (window_size : ℕ) (r : TransferSession × ℕ × Bool)
    → LoopDone s window_size 0 r
    → RequestDone s window_size (record (r.0) { state = after_request r.0.state r.1 }, success)
RequestDone-LoopDone s window_size r l = record {
  succeeds = refl;
  number = r.1;
  within = l.within;
  added = omega (arith, l.changes.added, l.counted);
  state_after = ap (λ st. after_request st r.1) l.changes.same_state;
  same_received = l.changes.same_received;
  kept = l.changes.kept;
  covered = l.changes.covered;
  ended = l.ended;
}

-- For a file of 1024 chunks at most, in a state that can request: the call succeeds, requests at most
-- `window_size` new chunks, forgets none, skips no chunk that is neither requested nor received, and
-- stops short of the window only when the cursor has reached the last chunk.
pub request_next_chunks-RequestDone :
    (now window_size : ℕ) (s : TransferSession)
    → IsSized s
    → can_request s.state ≡ true
    → s.next_chunk_to_request ≤ s.metadata.chunk_count
    → RequestDone s window_size (request_next_chunks now window_size s)
unfolding request_next_chunks
request_next_chunks-RequestDone now window_size s v c h =
    let l =
      request_loop-LoopDone (s.metadata.chunk_count - s.next_chunk_to_request) now window_size 0 s v
        (omega arith) h (omega arith) in
    rw (c, l.no_throw) (RequestDone-LoopDone s window_size _ l)

request_one_throws :
    (now : ℕ) (s : TransferSession)
    → s.next_chunk_to_request ≡ bits_size
    → bits_size < s.metadata.chunk_count
    → request_one now s ≡ (s, 0, true)
unfolding request_one
request_one_throws now s n h = ground arith

request_loop_throws :
    (rounds now window_size : ℕ) (s : TransferSession)
    → s.next_chunk_to_request ≡ bits_size
    → bits_size < s.metadata.chunk_count
    → 0 < window_size
    → 0 < rounds
    → request_loop rounds now window_size 0 s ≡ (s, 0, true)
unfolding request_loop
request_loop_throws zero now window_size s n h w r = absurd (omega arith)
request_loop_throws (suc rounds) now window_size s n h w r =
    let go : ltb 0 window_size && ltb s.next_chunk_to_request s.metadata.chunk_count ≡ true =
      ground arith in
    let e = request_one_throws now s n h in
    rw (go, request_loop, ap (λ (r : TransferSession × ℕ × Bool). r.2) e)
      (ap (λ (r : TransferSession × ℕ × Bool). (r.0, 0, true)) e)

-- With more than 1024 chunks the call throws as soon as the cursor stands at chunk 1024: the bitsets
-- have no such position.
pub request_next_chunks_throws :
    (now window_size : ℕ) (s : TransferSession)
    → can_request s.state ≡ true
    → s.next_chunk_to_request ≡ bits_size
    → bits_size < s.metadata.chunk_count
    → 0 < window_size
    → request_next_chunks now window_size s ≡ (s, throws_out_of_range)
unfolding request_next_chunks
request_next_chunks_throws now window_size s c n h w = rw (
  c,
  request_loop_throws (s.metadata.chunk_count - s.next_chunk_to_request) now window_size s n h w
      (omega arith),
)
