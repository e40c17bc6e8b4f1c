-- ===== src/Transfer/Session.antt =====
-- `TransferSession` of src/transfer/transfer_session.cpp. The time of a call, which the source takes
-- from the steady clock, is an argument, in nanoseconds; the timeout is in milliseconds. A call returns
-- the session with its outcome: the result of the source, the `std::out_of_range` of `bitset::test` and
-- `bitset::set`, or a division by zero. The request times have an element for each chunk, as after
-- `start_transfer`; a write past them, which is undefined in the source, changes nothing here.
pub mod Round
pub mod Requests
pub mod Accounting
pub mod Sizes
pub mod Untouched
pub mod Complete
mod Runs
use hyper_share.Prelude.{
  ℕ, zero, suc, ◌+◌, ◌-◌, ◌*◌, ◌/◌, ◌%◌, ◌^◌, ◌<◌, Bool, true, false, not, ◌&&◌, ◌||◌, List, [],
  ◌∷◌, ◌++◌, length, get_or, set, take, replicate, ltb, leb, ◌==◌, if◌then◌else◌,
}
use hyper_share.Maps.{◌=?◌, bytes_eq}
use hyper_share.Wire.{Bytes}
use hyper_share.Storage.Metadata.{FileMetadata}
use hyper_share.Transfer.Bits.{Bits, bits_size, no_bits, bit_at, count}

pub data TransferState : Type 0 where
  inactive requesting transferring paused completed failed cancelled : TransferState

pub record TransferSession : Type 0 where
  pub session_id : Bytes
  pub file_id : Bytes
  pub peer_id : ℕ
  pub state : TransferState
  pub metadata : FileMetadata
  pub requested_chunks : Bits
  pub received_chunks : Bits
  pub chunk_timeout : ℕ
  pub chunk_request_times : List ℕ
  pub next_chunk_to_request : ℕ
  pub bytes_transferred : ℕ
  pub start_time : ℕ

-- The messages of `CryptoResult`; `verification_failed` and `success` are its other codes.
pub data Outcome : Type 0 where
  success : Outcome
  cannot_request index_out_of_range not_requested size_mismatch : Outcome
  verification_failed : Outcome
  throws_out_of_range divides_by_zero : Outcome

-- The metadata of a new session are not initialised: they are an argument here.
unfoldable pub new_session : (session_id file_id : Bytes) → ℕ → FileMetadata → TransferSession
new_session session_id file_id peer_id metadata = record {
  session_id = session_id;
  file_id = file_id;
  peer_id = peer_id;
  state = inactive;
  metadata = metadata;
  requested_chunks = no_bits;
  received_chunks = no_bits;
  chunk_timeout = 30000;
  chunk_request_times = replicate 1024 0;
  next_chunk_to_request = 0;
  bytes_transferred = 0;
  start_time = 0;
}

-- `std::vector::resize`
abbrev pub resize : List ℕ → ℕ → List ℕ
resize xs n = take n xs ++ replicate (n - length xs) 0

unfoldable pub start_transfer : FileMetadata → ℕ → TransferSession → TransferSession
start_transfer metadata now s = record s {
  metadata = metadata;
  state = requesting;
  start_time = now;
  requested_chunks = no_bits;
  received_chunks = no_bits;
  next_chunk_to_request = 0;
  bytes_transferred = 0;
  chunk_request_times = resize s.chunk_request_times metadata.chunk_count;
}

unfoldable pub set_state : TransferState → TransferSession → TransferSession
set_state new_state s = record s { state = new_state }

abbrev pub is_state_completed : TransferState → Bool
is_state_completed completed = true
is_state_completed _ = false

unfoldable pub is_complete : TransferSession → Bool
is_complete s = is_state_completed s.state || count s.received_chunks == s.metadata.chunk_count

-- `chunk_index < metadata_.chunk_count && bits.test(chunk_index)`; the last answer is the exception.
pub data Tested : Type 0 where
  is_set is_clear out_of_range : Tested

abbrev pub test_chunk : FileMetadata → Bits → ℕ → Tested
test_chunk metadata bits chunk_index =
    if ltb chunk_index metadata.chunk_count
    then (if ltb chunk_index bits_size
        then (if bit_at bits chunk_index then is_set else is_clear)
        else out_of_range)
    else is_clear

unfoldable pub is_chunk_requested : TransferSession → ℕ → Tested
is_chunk_requested s chunk_index = test_chunk s.metadata s.requested_chunks chunk_index

unfoldable pub is_chunk_received : TransferSession → ℕ → Tested
is_chunk_received s chunk_index = test_chunk s.metadata s.received_chunks chunk_index

-- The second part is whether the call throws. The bit is set before the time.
unfoldable pub mark_chunk_requested : ℕ → ℕ → TransferSession → TransferSession × Bool
mark_chunk_requested now chunk_index s =
    if ltb chunk_index s.metadata.chunk_count
    then (if ltb chunk_index bits_size
        then (
          record s {
            requested_chunks = set s.requested_chunks chunk_index true;
            chunk_request_times = set s.chunk_request_times chunk_index now;
          },
          false,
        )
        else (s, true))
    else (s, false)

-- The body of the loop of `request_next_chunks`, for the chunk `next_chunk_to_request`: the session
-- with what is added to `chunks_requested`, and whether a call throws.
pub request_one : ℕ → TransferSession → TransferSession × ℕ × Bool
unfolding is_chunk_requested is_chunk_received mark_chunk_requested
request_one now s = elim (is_chunk_requested s s.next_chunk_to_request) [
  | out_of_range ↦ (s, 0, true)
  | is_set ↦ (record s { next_chunk_to_request = s.next_chunk_to_request + 1 }, 0, false)
  | is_clear ↦ elim (is_chunk_received s s.next_chunk_to_request) [
    | out_of_range ↦ (s, 0, true)
    | is_set ↦ (record s { next_chunk_to_request = s.next_chunk_to_request + 1 }, 0, false)
    | is_clear ↦
        let (s', throws) = mark_chunk_requested now s.next_chunk_to_request s in
        if throws
        then (s', 0, true)
        else (record s' { next_chunk_to_request = s'.next_chunk_to_request + 1 }, 1, false)
  ]
]

-- The loop, with the rounds that it may make: at most one for each chunk that is left.
pub request_loop : ℕ → ℕ → ℕ → ℕ → TransferSession → TransferSession × ℕ × Bool
request_loop zero now window_size chunks_requested s = (s, chunks_requested, false)
request_loop (suc rounds) now window_size chunks_requested s =
    elim (ltb chunks_requested window_size && ltb s.next_chunk_to_request s.metadata.chunk_count) [
      | false ↦ (s, chunks_requested, false)
      | true ↦
          let (s', more, throws) = request_one now s in
          elim throws [
            | true ↦ (s', chunks_requested, true)
            | false ↦ request_loop rounds now window_size (chunks_requested + more) s'
          ]
    ]

-- The states in which chunks can be requested.
abbrev pub can_request : TransferState → Bool
can_request requesting = true
can_request transferring = true
can_request _ = false

abbrev pub after_request : TransferState → ℕ → TransferState
after_request requesting (suc n) = transferring
after_request st n = st

pub request_next_chunks : ℕ → ℕ → TransferSession → TransferSession × Outcome
unfolding request_loop request_one
request_next_chunks now window_size s =
    if can_request s.state
    then (let (s', chunks_requested, throws) =
          request_loop (s.metadata.chunk_count - s.next_chunk_to_request) now window_size 0 s in
        if throws
        then (s', throws_out_of_range)
        else (record s' { state = after_request s'.state chunks_requested }, success))
    else (s, cannot_request)

-- `metadata_.file_size % metadata_.chunk_size` for the last chunk, where that is not zero.
unfoldable pub expected_size : FileMetadata → ℕ → ℕ
expected_size metadata chunk_index =
    if chunk_index == metadata.chunk_count - 1
    then (let remainder = metadata.file_size % metadata.chunk_size in
        if remainder == 0 then metadata.chunk_size else remainder)
    else metadata.chunk_size

-- `std::hex << std::setfill('0') << std::setw(2)` of a byte, in ASCII.
abbrev hex_digit : ℕ → ℕ
hex_digit d = if ltb d 10 then b'0' + d else b'a' + (d - 10)

unfoldable pub hash_to_hex : Bytes → Bytes
hash_to_hex [] = []
hash_to_hex (byte ∷ hash) = hex_digit (byte / 16) ∷ hex_digit (byte % 16) ∷ hash_to_hex hash

-- The parameter is `crypto_generichash` of libsodium with a 32-byte output and no key, which is what
-- `Blake3Hasher::hash` calls.
module _ (generichash : Bytes → Bytes) where
  unfoldable pub validate_chunk : TransferSession → ℕ → Bytes → Bool
  validate_chunk s chunk_index chunk_data =
      if ltb chunk_index (length s.metadata.chunk_hashes)
        && not (get_or s.metadata.chunk_hashes chunk_index [] =? [])
      then hash_to_hex (generichash chunk_data) =? get_or s.metadata.chunk_hashes chunk_index []
      else true

  -- What follows the tests of the index and of the request.
  unfoldable pub accept_chunk : ℕ → Bytes → TransferSession → TransferSession × Outcome
  accept_chunk chunk_index chunk_data s =
      if not (length chunk_data == expected_size s.metadata chunk_index)
      then (s, size_mismatch)
      else if not (validate_chunk s chunk_index chunk_data)
      then (s, verification_failed)
      else (let received = set s.received_chunks chunk_index true in
          (
            record s {
              received_chunks = received;
              bytes_transferred = (s.bytes_transferred + length chunk_data) % 2 ^ 64;
              state = if count received == s.metadata.chunk_count then completed else s.state;
            },
            success,
          ))

  pub handle_chunk_received : ℕ → Bytes → TransferSession → TransferSession × Outcome
  handle_chunk_received chunk_index chunk_data s =
      if ltb chunk_index s.metadata.chunk_count
      then elim (is_chunk_requested s chunk_index) [
        | out_of_range ↦ (s, throws_out_of_range)
        | is_clear ↦ (s, not_requested)
        | is_set ↦
            if chunk_index == s.metadata.chunk_count - 1 && s.metadata.chunk_size == 0
            then (s, divides_by_zero)
            else accept_chunk chunk_index chunk_data s
      ]
      else (s, index_out_of_range)

unfoldable pub set_chunk_timeout : ℕ → TransferSession → TransferSession
set_chunk_timeout timeout s = record s { chunk_timeout = timeout }

-- The loop from chunk `i` on, over the chunks that are left; `none` is the exception.
timed_out_from : ℕ → ℕ → ℕ → TransferSession → List ℕ × Bool
timed_out_from zero i now s = ([], false)
timed_out_from (suc left) i now s =
    let (more, throws) = timed_out_from left (i + 1) now s in
    elim (is_chunk_requested s i) [
      | out_of_range ↦ ([], true)
      | is_clear ↦ (more, throws)
      | is_set ↦ elim (is_chunk_received s i) [
        | out_of_range ↦ ([], true)
        | is_set ↦ (more, throws)
        | is_clear ↦
            if ltb (get_or s.chunk_request_times i 0 + s.chunk_timeout * 1000000) now
            then (i ∷ more, throws)
            else (more, throws)
      ]
    ]

unfoldable pub get_timed_out_chunks : ℕ → TransferSession → List ℕ × Bool
unfolding timed_out_from is_chunk_requested is_chunk_received
get_timed_out_chunks now s = timed_out_from s.metadata.chunk_count 0 now s

unfoldable pub retry_chunk : ℕ → ℕ → TransferSession → TransferSession × Outcome
retry_chunk now chunk_index s =
    if ltb chunk_index s.metadata.chunk_count
    then (record s { chunk_request_times = set s.chunk_request_times chunk_index now }, success)
    else (s, index_out_of_range)
