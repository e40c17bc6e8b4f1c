-- ===== src/Transfer/Session/Accounting.antt =====
-- What `handle_chunk_received` accepts, and the bytes that it counts.
use hyper_share.Prelude.{
  ℕ, ◌+◌, ◌-◌, ◌%◌, ◌^◌, ◌≤◌, ◌<◌, ◌≡◌, ◌≢◌, ap, ◌∙◌, ◌⊎◌, inl, inr, true, false, ◌&&◌, length, set,
  length-set, ltb, ◌==◌, if◌then◌else◌, arith, Bool-cases,
}
use hyper_share.Wire.{Bytes}
use hyper_share.Transfer.Bits.{
  bits_size, bit_at, count, sum_set, set_known, bit_at-set, sum_set-set_new,
}
use hyper_share.Transfer.Session.{
  TransferSession, completed, Outcome, success, expected_size, validate_chunk, accept_chunk,
  handle_chunk_received, is_chunk_requested,
}

module _ (generichash : Bytes → Bytes) where
  -- The session after chunk `i` of `n` bytes is accepted.
  abbrev pub accepted : ℕ → ℕ → TransferSession → TransferSession
  accepted i n s = record s {
    received_chunks = set s.received_chunks i true;
    bytes_transferred = (s.bytes_transferred + n) % 2 ^ 64;
    state =
        if count (set s.received_chunks i true) == s.metadata.chunk_count
        then completed
        else s.state;
  }

  -- The tests that an accepted chunk has passed.
  pub record IsAcceptable (i : ℕ) (chunk_data : Bytes) (s : TransferSession) : Type 0 where
    pub in_file : i < s.metadata.chunk_count
    pub in_bitset : i < bits_size
    pub requested : bit_at s.requested_chunks i ≡ true
    pub sized : length chunk_data ≡ expected_size s.metadata i
    pub valid : validate_chunk generichash s i chunk_data ≡ true

  accept_chunk_cases :
      (i : ℕ) (chunk_data : Bytes) (s : TransferSession)
      → ((accept_chunk generichash i chunk_data s).1 ≢ success)
          × ((accept_chunk generichash i chunk_data s).0 ≡ s)
        ⊎ (length chunk_data ≡ expected_size s.metadata i)
          × (validate_chunk generichash s i chunk_data ≡ true)
          × (accept_chunk generichash i chunk_data s ≡ (accepted i (length chunk_data) s, success))
  unfolding accept_chunk
  accept_chunk_cases i chunk_data s =
      elim (Bool-cases (length chunk_data == expected_size s.metadata i)) [
        | inr size ↦ inl (ground (arith, size), ground (arith, size))
        | inl size ↦ elim (Bool-cases (validate_chunk generichash s i chunk_data)) [
          | inr hash ↦ inl (ground (arith, size, hash), ground (arith, size, hash))
          | inl hash ↦ inr (ground (arith, size), hash, rw (size, hash))
        ]
      ]

  pub handle_chunk_received_cases :
      (i : ℕ) (chunk_data : Bytes) (s : TransferSession)
      → ((handle_chunk_received generichash i chunk_data s).1 ≢ success)
          × ((handle_chunk_received generichash i chunk_data s).0 ≡ s)
        ⊎ IsAcceptable i chunk_data s
          × (handle_chunk_received generichash i chunk_data s
              ≡ (accepted i (length chunk_data) s, success))
  unfolding handle_chunk_received is_chunk_requested
  handle_chunk_received_cases i chunk_data s = elim (Bool-cases (bit_at s.requested_chunks i)) [
    | inr bit ↦ inl (ground (arith, bit), ground (arith, bit))
    | inl bit ↦ elim (Bool-cases (ltb i s.metadata.chunk_count && ltb i bits_size)) [
      | inr range ↦ inl (ground (arith, bit, range), ground (arith, bit, range))
      | inl range ↦
          elim (Bool-cases (i == s.metadata.chunk_count - 1 && s.metadata.chunk_size == 0)) [
            | inl div ↦ inl (ground (arith, bit, range, div), ground (arith, bit, range, div))
            | inr div ↦
                let reached : handle_chunk_received generichash i chunk_data s
                    ≡ accept_chunk generichash i chunk_data s =
                  ground (arith, bit, range, div) in
                elim (accept_chunk_cases i chunk_data s) [
                  | inl (ne, same) ↦ rw reached (inl (ne, same))
                  | inr (size, hash, e) ↦ rw reached (
                      inr (
                        record {
                          in_file = ground (arith, range);
                          in_bitset = ground (arith, range);
                          requested = bit;
                          sized = size;
                          valid = hash;
                        },
                        e,
                      ))
                ]
          ]
    ]
  ]

  -- A chunk that is refused, for whatever reason, leaves the session as it was.
  pub handle_chunk_received_refused :
      (i : ℕ) (chunk_data : Bytes) (s : TransferSession)
      → (handle_chunk_received generichash i chunk_data s).1 ≢ success
      → (handle_chunk_received generichash i chunk_data s).0 ≡ s
  handle_chunk_received_refused i chunk_data s refused =
      elim (handle_chunk_received_cases i chunk_data s) [
        | inl (ne, same) ↦ same
        | inr (a, e) ↦ absurd (refused (ap (λ (r : TransferSession × Outcome). r.1) e))
      ]

  -- A chunk is accepted only if it lies in the file and in the bitset, was requested, has the expected
  -- size and passes the test of its hash.
  pub handle_chunk_received-IsAcceptable :
      (i : ℕ) (chunk_data : Bytes) (s : TransferSession)
      → (handle_chunk_received generichash i chunk_data s).1 ≡ success
      → IsAcceptable i chunk_data s
  handle_chunk_received-IsAcceptable i chunk_data s e =
      elim (handle_chunk_received_cases i chunk_data s) [
        | inl (ne, same) ↦ absurd (ne e)
        | inr (a, _) ↦ a
      ]

  -- The bytes counted are those of the chunks that are marked as received.
  pub record IsAccounted (s : TransferSession) : Type 0 where
    pub received_size : length s.received_chunks ≡ bits_size
    pub received_in_file : (j : ℕ) → s.metadata.chunk_count ≤ j → bit_at s.received_chunks j ≡ false
    pub bytes_counted :
        s.bytes_transferred ≡ sum_set (expected_size s.metadata) 0 s.received_chunks % 2 ^ 64

  accepted-IsAccounted :
      (i : ℕ) (chunk_data : Bytes) (s : TransferSession)
      → IsAcceptable i chunk_data s
      → IsAccounted s
      → bit_at s.received_chunks i ≡ false
      → IsAccounted (accepted i (length chunk_data) s)
  accepted-IsAccounted i chunk_data s a v new =
      let room : i < length s.received_chunks = omega (arith, a, v.received_size) in
      record {
        received_size = length-set s.received_chunks i true ∙ v.received_size;
        received_in_file = λ j h.
            ground
              (arith, bit_at-set s.received_chunks i j room, v.received_in_file j h, a.in_file);
        bytes_counted = omega (
          arith,
          sum_set-set_new (expected_size s.metadata) 0 s.received_chunks i room new,
          v.bytes_counted,
          a.sized,
          ap (expected_size s.metadata) {x = 0 + i} {y = i} (omega arith),
        );
      }

  -- A chunk that was not received before, accepted or refused, keeps the account right.
  pub handle_chunk_received-IsAccounted :
      (i : ℕ) (chunk_data : Bytes) (s : TransferSession)
      → IsAccounted s
      → bit_at s.received_chunks i ≡ false
      → IsAccounted (handle_chunk_received generichash i chunk_data s).0
  handle_chunk_received-IsAccounted i chunk_data s v new =
      elim (handle_chunk_received_cases i chunk_data s) [
        | inl (ne, same) ↦ rw same v
        | inr (a, e) ↦ rw e (accepted-IsAccounted i chunk_data s a v new)
      ]

  -- A chunk that arrives a second time is accepted again: no chunk is added, and its bytes are
  -- counted once more.
  pub handle_chunk_received_twice :
      (i : ℕ) (chunk_data : Bytes) (s : TransferSession)
      → (handle_chunk_received generichash i chunk_data s).1 ≡ success
      → bit_at s.received_chunks i ≡ true
      → ((handle_chunk_received generichash i chunk_data s).0.received_chunks ≡ s.received_chunks)
        × ((handle_chunk_received generichash i chunk_data s).0.bytes_transferred
            ≡ (s.bytes_transferred + expected_size s.metadata i) % 2 ^ 64)
  handle_chunk_received_twice i chunk_data s h old =
      elim (handle_chunk_received_cases i chunk_data s) [
        | inl (ne, same) ↦ absurd (ne h)
        | inr (a, e) ↦ rw e (set_known s.received_chunks i old, omega (arith, a.sized))
      ]
