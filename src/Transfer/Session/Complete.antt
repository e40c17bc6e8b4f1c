-- ===== src/Transfer/Session/Complete.antt =====
-- A download from its start: the requests, the chunks that arrive and the changes of its state.
use hyper_share.Prelude.{
  ℕ, ◌%◌, ◌^◌, ◌<◌, ◌≡◌, refl, sym, ap, subst, set, ◌∙◌, true, false, ◌==◌, length, arith,
  Bool-cases, inl, inr,
}
use hyper_share.Wire.{Bytes}
use hyper_share.Storage.Metadata.{FileMetadata}
use hyper_share.Storage.Metadata.Layout.{IsLaidOut, sum_below}
use hyper_share.Transfer.Bits.{
  Bits, bits_size, sum_set, count-set_new, length-no_bits, bit_at-no_bits, sum_set-no_bits, bit_at,
  count,
}
use hyper_share.Transfer.Session.{
  TransferSession, TransferState, Outcome, is_state_completed, expected_size, start_transfer,
  set_state, is_complete, request_next_chunks, handle_chunk_received, retry_chunk,
}
use hyper_share.Transfer.Session.Accounting.{
  IsAccounted, accepted, handle_chunk_received_cases, handle_chunk_received-IsAccounted,
}
use hyper_share.Transfer.Session.Sizes.{sum_below-expected_size, sum_set-full, count-le_below}
use hyper_share.Transfer.Session.Untouched.{
  Untouched, request_next_chunks-Untouched, retry_chunk-Untouched,
}

module _ (generichash : Bytes → Bytes) (metadata : FileMetadata) where
  -- The sessions that a download of the file passes through, where no chunk is delivered twice and
  -- nobody else declares it complete.
  pub data Download : TransferSession → Type 0 where
    started : (now : ℕ) (s : TransferSession) → Download (start_transfer metadata now s)
    requests :
        (now window_size : ℕ) (s : TransferSession)
        → Download s
        → Download (request_next_chunks now window_size s).0
    arrives :
        (i : ℕ) (chunk_data : Bytes) (s : TransferSession)
        → Download s
        → bit_at s.received_chunks i ≡ false
        → Download (handle_chunk_received generichash i chunk_data s).0
    retries : (now i : ℕ) (s : TransferSession) → Download s → Download (retry_chunk now i s).0
    moves :
        (st : TransferState) (s : TransferSession)
        → Download s
        → is_state_completed st ≡ false
        → Download (set_state st s)

  record Inv (s : TransferSession) : Type 0 where
    same_metadata : s.metadata ≡ metadata
    accounted : IsAccounted generichash s
    all_there : is_state_completed s.state ≡ true → count s.received_chunks ≡ s.metadata.chunk_count

  start_transfer-Inv : (now : ℕ) (s : TransferSession) → Inv (start_transfer metadata now s)
  unfolding start_transfer
  start_transfer-Inv now s = record {
    same_metadata = refl;
    accounted = record {
      received_size = length-no_bits;
      received_in_file = λ j h. bit_at-no_bits j;
      bytes_counted = ap (λ n. n % 2 ^ 64) (sym (sum_set-no_bits (expected_size metadata)));
    };
    all_there = λ e. ground arith;
  }

  Inv-Untouched : (s t : TransferSession) → Untouched s t → Inv s → Inv t
  Inv-Untouched s t u v =
      let same_count : t.metadata.chunk_count ≡ s.metadata.chunk_count =
        ap (λ (m : FileMetadata). m.chunk_count) u.same_metadata in
      record {
        same_metadata = u.same_metadata ∙ v.same_metadata;
        accounted = record {
          received_size = ap length u.same_received ∙ v.accounted.received_size;
          received_in_file = λ j h.
              ap (λ (b : Bits). bit_at b j) u.same_received
              ∙ v.accounted.received_in_file j (omega (arith, same_count));
          bytes_counted =
              u.same_bytes
              ∙ v.accounted.bytes_counted
              ∙ sym (
                  ap (λ (m : FileMetadata). sum_set (expected_size m) 0 t.received_chunks % 2 ^ 64)
                    u.same_metadata
                  ∙ ap (λ (b : Bits). sum_set (expected_size s.metadata) 0 b % 2 ^ 64)
                      u.same_received);
        };
        all_there =
            λ e. ap count u.same_received ∙ v.all_there (sym u.same_completed ∙ e) ∙ sym same_count;
      }

  set_state-Inv :
      (st : TransferState) (s : TransferSession)
      → is_state_completed st ≡ false
      → Inv s
      → Inv (set_state st s)
  unfolding set_state
  set_state-Inv st s e v = record {
    same_metadata = v.same_metadata;
    accounted = record {
      received_size = v.accounted.received_size;
      received_in_file = v.accounted.received_in_file;
      bytes_counted = v.accounted.bytes_counted;
    };
    all_there = λ e'. ground (arith, e, e');
  }

  -- A session that was complete has no chunk left to receive.
  accepted_all_there :
      (i n : ℕ) (s : TransferSession)
      → Inv s
      → IsAccounted generichash (accepted generichash i n s)
      → i < bits_size
      → bit_at s.received_chunks i ≡ false
      → is_state_completed (accepted generichash i n s).state ≡ true
      → count (set s.received_chunks i true) ≡ s.metadata.chunk_count
  accepted_all_there i n s v w h new e =
      elim (Bool-cases (count (set s.received_chunks i true) == s.metadata.chunk_count)) [
        | inl full ↦ ground (arith, full)
        | inr short ↦
            let was : is_state_completed s.state ≡ true = ground (arith, short, e) in
            absurd (
              omega (
                arith,
                v.all_there was,
                count-set_new s.received_chunks i (omega (arith, v.accounted.received_size)) new,
                count-le_below (set s.received_chunks i true) s.metadata.chunk_count
                    w.received_in_file,
              ))
      ]

  handle_chunk_received-Inv :
      (i : ℕ) (chunk_data : Bytes) (s : TransferSession)
      → bit_at s.received_chunks i ≡ false
      → Inv s
      → Inv (handle_chunk_received generichash i chunk_data s).0
  handle_chunk_received-Inv i chunk_data s new v =
      let after = handle_chunk_received-IsAccounted generichash i chunk_data s v.accounted new in
      elim (handle_chunk_received_cases generichash i chunk_data s) [
        | inl (ne, same) ↦ rw same v
        | inr (a, e) ↦
            let w : IsAccounted generichash (accepted generichash i (length chunk_data) s) =
              subst (λ (r : TransferSession × Outcome). IsAccounted generichash r.0) e after in
            rw e (record {
              same_metadata = v.same_metadata;
              accounted = w;
              all_there = accepted_all_there i (length chunk_data) s v w a.in_bitset new;
            })
      ]

  Download-Inv : (s : TransferSession) → Download s → Inv s
  Download-Inv _ (started now s) = start_transfer-Inv now s
  Download-Inv _ (requests now window_size s d) =
      Inv-Untouched s (request_next_chunks now window_size s).0
        (request_next_chunks-Untouched now window_size s) (Download-Inv s d)
  Download-Inv _ (arrives i chunk_data s d new) =
      handle_chunk_received-Inv i chunk_data s new (Download-Inv s d)
  Download-Inv _ (retries now i s d) =
      Inv-Untouched s (retry_chunk now i s).0 (retry_chunk-Untouched now i s) (Download-Inv s d)
  Download-Inv _ (moves st s d e) = set_state-Inv st s e (Download-Inv s d)

  pub Download-IsAccounted : (s : TransferSession) → Download s → IsAccounted generichash s
  Download-IsAccounted s d = (Download-Inv s d).accounted

  -- For a file whose chunk count is the one of its size, a download that `is_complete` calls complete
  -- has counted exactly the bytes of the file: for every order of the requests, of the chunks, of the
  -- refused chunks, of the retries and of the changes to states other than completed, where no chunk is
  -- delivered twice.
  pub Download-is_complete :
      IsLaidOut metadata
      → (s : TransferSession) → Download s
      → is_complete s ≡ true
      → s.bytes_transferred ≡ metadata.file_size
  unfolding is_complete
  Download-is_complete m s d e =
      let v = Download-Inv s d in
      let full : count s.received_chunks ≡ s.metadata.chunk_count =
        ground (arith, v.all_there, e) in
      let sized : sum_below (expected_size s.metadata) 0 s.metadata.chunk_count
          ≡ metadata.file_size =
        ap (λ (m : FileMetadata). sum_below (expected_size m) 0 m.chunk_count) v.same_metadata
        ∙ sum_below-expected_size metadata m in
      omega (
        arith,
        v.accounted.bytes_counted,
        sum_set-full (expected_size s.metadata) 0 s.received_chunks s.metadata.chunk_count full
            v.accounted.received_in_file,
        sized,
        m.size_range,
      )
