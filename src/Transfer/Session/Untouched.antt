-- ===== src/Transfer/Session/Untouched.antt =====
-- What requests and retries leave alone in a session.
use hyper_share.Prelude.{
  ℕ, zero, suc, ◌+◌, ◌-◌, ◌≡◌, refl, ◌∙◌, ◌&&◌, ltb, arith, Bool-cases, inl, inr,
}
use hyper_share.Transfer.Session.{
  TransferSession, TransferState, is_state_completed, request_one, request_loop,
  request_next_chunks, can_request, after_request, retry_chunk,
}

-- What no request changes.
pub record Untouched (s s' : TransferSession) : Type 0 where
  pub same_metadata : s'.metadata ≡ s.metadata
  pub same_received : s'.received_chunks ≡ s.received_chunks
  pub same_bytes : s'.bytes_transferred ≡ s.bytes_transferred
  pub same_completed : is_state_completed s'.state ≡ is_state_completed s.state

pub Untouched-refl : (s : TransferSession) → Untouched s s
Untouched-refl s = record {
  same_metadata = refl;
  same_received = refl;
  same_bytes = refl;
  same_completed = refl;
}

pub Untouched-trans : (s t u : TransferSession) → Untouched s t → Untouched t u → Untouched s u
Untouched-trans s t u p q = record {
  same_metadata = q.same_metadata ∙ p.same_metadata;
  same_received = q.same_received ∙ p.same_received;
  same_bytes = q.same_bytes ∙ p.same_bytes;
  same_completed = q.same_completed ∙ p.same_completed;
}

request_one-Untouched : (now : ℕ) (s : TransferSession) → Untouched s (request_one now s).0
unfolding request_one
request_one-Untouched now s = record {
  same_metadata = ground arith;
  same_received = ground arith;
  same_bytes = ground arith;
  same_completed = ground arith;
}

request_loop-Untouched :
    (rounds now window_size k : ℕ) (s : TransferSession)
    → Untouched s (request_loop rounds now window_size k s).0
unfolding request_loop
request_loop-Untouched zero now window_size k s = Untouched-refl s
request_loop-Untouched (suc rounds) now window_size k s =
    elim (Bool-cases (ltb k window_size && ltb s.next_chunk_to_request s.metadata.chunk_count)) [
      | inr stop ↦ rw (stop, request_loop) (Untouched-refl s)
      | inl go ↦
          let one = request_one-Untouched now s in
          elim (Bool-cases (request_one now s).2) [
            | inl throws ↦ rw (go, request_loop, throws) one
            | inr runs ↦
                rw (go, request_loop, runs)
                  (Untouched-trans s (request_one now s).0 _ one (
                    request_loop-Untouched rounds now window_size (k + (request_one now s).1)
                      (request_one now s).0))
          ]
    ]

after_request_completed :
    (st : TransferState) (n : ℕ) → is_state_completed (after_request st n) ≡ is_state_completed st
after_request_completed st n = ground arith

pub request_next_chunks-Untouched :
    (now window_size : ℕ) (s : TransferSession)
    → Untouched s (request_next_chunks now window_size s).0
unfolding request_next_chunks
request_next_chunks-Untouched now window_size s =
    let rounds : ℕ = s.metadata.chunk_count - s.next_chunk_to_request in
    let l = request_loop-Untouched rounds now window_size 0 s in
    elim (Bool-cases (can_request s.state)) [
      | inr unable ↦ rw unable (Untouched-refl s)
      | inl able ↦ elim (Bool-cases (request_loop rounds now window_size 0 s).2) [
        | inl throws ↦ rw (able, throws) l
        | inr runs ↦
            rw (able, runs)
              (record {
                same_metadata = l.same_metadata;
                same_received = l.same_received;
                same_bytes = l.same_bytes;
                same_completed =
                    after_request_completed (request_loop rounds now window_size 0 s).0.state
                      (request_loop rounds now window_size 0 s).1
                    ∙ l.same_completed;
              })
      ]
    ]

pub retry_chunk-Untouched : (now i : ℕ) (s : TransferSession) → Untouched s (retry_chunk now i s).0
unfolding retry_chunk
retry_chunk-Untouched now i s = elim (Bool-cases (ltb i s.metadata.chunk_count)) [
  | inl in_file ↦ rw in_file (record {
    same_metadata = refl;
    same_received = refl;
    same_bytes = refl;
    same_completed = refl;
  })
  | inr outside ↦ rw outside (Untouched-refl s)
]
