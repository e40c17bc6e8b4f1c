-- ===== src/Transfer/Session/Round.antt =====
-- One round of the loop of `request_next_chunks`.
use hyper_share.Prelude.{
  ℕ, ◌+◌, ◌≤◌, ◌<◌, ◌≡◌, refl, subst, ap, ◌∙◌, ◌⊎◌, inl, inr, Bool, true, false, length, set,
  length-set, arith, Bool-cases,
}
use hyper_share.Transfer.Bits.{Bits, bits_size, bit_at, count, count-set_new, bit_at-set}
use hyper_share.Transfer.Session.{TransferSession, request_one}

-- What requesting `k` chunks changes: bits are only added, `k` of them, and every chunk that the
-- cursor has passed is requested or was received.
pub record Requested (s s' : TransferSession) (k : ℕ) : Type 0 where
  pub same_metadata : s'.metadata ≡ s.metadata
  pub same_received : s'.received_chunks ≡ s.received_chunks
  pub same_state : s'.state ≡ s.state
  pub same_size : length s'.requested_chunks ≡ length s.requested_chunks
  pub cursor : s.next_chunk_to_request ≤ s'.next_chunk_to_request
  pub added : count s'.requested_chunks ≡ count s.requested_chunks + k
  pub kept : (i : ℕ) → bit_at s.requested_chunks i ≡ true → bit_at s'.requested_chunks i ≡ true
  pub covered :
      (i : ℕ)
      → s.next_chunk_to_request ≤ i
      → i < s'.next_chunk_to_request
      → (bit_at s'.requested_chunks i ≡ true) ⊎ (bit_at s'.received_chunks i ≡ true)

pub Requested-refl : (s : TransferSession) → Requested s s 0
Requested-refl s = record {
  same_metadata = refl;
  same_received = refl;
  same_state = refl;
  same_size = refl;
  cursor = omega arith;
  added = omega arith;
  kept = λ i h. h;
  covered = λ i h h'. absurd (omega arith);
}

pub Requested-trans :
    (s t u : TransferSession) (k n : ℕ) → Requested s t k → Requested t u n → Requested s u (k + n)
Requested-trans s t u k n p q = record {
  same_metadata = q.same_metadata ∙ p.same_metadata;
  same_received = q.same_received ∙ p.same_received;
  same_state = q.same_state ∙ p.same_state;
  same_size = q.same_size ∙ p.same_size;
  cursor = omega arith;
  added = omega arith;
  kept = λ i h. q.kept i (p.kept i h);
  covered = λ i h h'.
      ground
        (arith, p.covered i, q.covered i, q.kept i, ap (λ (b : Bits). bit_at b i) q.same_received);
}

-- The sizes that the constructor gives, and a file of 1024 chunks at most.
pub record IsSized (s : TransferSession) : Type 0 where
  pub requested_size : length s.requested_chunks ≡ bits_size
  pub chunks_fit : s.metadata.chunk_count ≤ bits_size

abbrev skipped : TransferSession → TransferSession
skipped s = record s { next_chunk_to_request = s.next_chunk_to_request + 1 }

abbrev marked : ℕ → TransferSession → TransferSession
marked now s = record s {
  requested_chunks = set s.requested_chunks s.next_chunk_to_request true;
  chunk_request_times = set s.chunk_request_times s.next_chunk_to_request now;
  next_chunk_to_request = s.next_chunk_to_request + 1;
}

module _ (now : ℕ) (s : TransferSession) (v : IsSized s)
    (h : s.next_chunk_to_request < s.metadata.chunk_count) where
  request_one_known :
      (bit_at s.requested_chunks s.next_chunk_to_request ≡ true)
        ⊎ (bit_at s.received_chunks s.next_chunk_to_request ≡ true)
      → request_one now s ≡ (skipped s, 0, false)
  unfolding request_one
  request_one_known k = ground arith

  request_one_new :
      bit_at s.requested_chunks s.next_chunk_to_request ≡ false
      → bit_at s.received_chunks s.next_chunk_to_request ≡ false
      → request_one now s ≡ (marked now s, 1, false)
  unfolding request_one
  request_one_new a b = ground arith

  skipped-Requested :
      (bit_at s.requested_chunks s.next_chunk_to_request ≡ true)
        ⊎ (bit_at s.received_chunks s.next_chunk_to_request ≡ true)
      → Requested s (skipped s) 0
  skipped-Requested k = record {
    same_metadata = refl;
    same_received = refl;
    same_state = refl;
    same_size = refl;
    cursor = omega arith;
    added = omega arith;
    kept = λ i h. h;
    covered = λ i lo hi.
        let e : s.next_chunk_to_request ≡ i = omega arith in
        subst (λ j. (bit_at s.requested_chunks j ≡ true) ⊎ (bit_at s.received_chunks j ≡ true)) e k;
  }

  marked-Requested :
      bit_at s.requested_chunks s.next_chunk_to_request ≡ false → Requested s (marked now s) 1
  marked-Requested a =
      let n : ℕ = s.next_chunk_to_request in
      let room : n < length s.requested_chunks = omega (arith, v, h) in
      record {
        same_metadata = refl;
        same_received = refl;
        same_state = refl;
        same_size = length-set s.requested_chunks n true;
        cursor = omega arith;
        added = omega (arith, count-set_new s.requested_chunks n room a);
        kept = λ i q. ground (arith, bit_at-set s.requested_chunks n i room, q);
        covered = λ i lo hi. inl (ground (arith, bit_at-set s.requested_chunks n i room));
      }

-- One round neither throws nor counts more than one chunk, and moves the cursor by one.
pub record RoundDone (s : TransferSession) (r : TransferSession × ℕ × Bool) : Type 0 where
  pub no_throw : r.2 ≡ false
  pub at_most_one : r.1 ≤ 1
  pub moved : r.0.next_chunk_to_request ≡ s.next_chunk_to_request + 1
  pub changes : Requested s r.0 r.1

pub request_one-RoundDone :
    (now : ℕ) (s : TransferSession)
    → IsSized s
    → s.next_chunk_to_request < s.metadata.chunk_count
    → RoundDone s (request_one now s)
request_one-RoundDone now s v h =
    elim (Bool-cases (bit_at s.requested_chunks s.next_chunk_to_request)) [
      | inl a ↦ skip (inl a)
      | inr a ↦ elim (Bool-cases (bit_at s.received_chunks s.next_chunk_to_request)) [
        | inl b ↦ skip (inr b)
        | inr b ↦ rw (request_one_new now s v h a b) (record {
          no_throw = refl;
          at_most_one = omega arith;
          moved = refl;
          changes = marked-Requested now s v h a;
        })
      ]
    ]
  where
    skip :
        (bit_at s.requested_chunks s.next_chunk_to_request ≡ true)
          ⊎ (bit_at s.received_chunks s.next_chunk_to_request ≡ true)
        → RoundDone s (request_one now s)
    skip k = rw (request_one_known now s v h k) (record {
      no_throw = refl;
      at_most_one = omega arith;
      moved = refl;
      changes = skipped-Requested now s v h k;
    })
