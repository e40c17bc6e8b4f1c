-- ===== src/Protocol/Header/Laws.antt =====
-- The header's round trip, its size, and its checksum.
use hyper_share.Prelude.{
  ℕ, ◌≤◌, ◌<◌, ◌≡◌, ◌∷◌, ◌++◌, true, length, arith, ==_iff, le→ltb, length-append,
}
use hyper_share.Wire.{Bytes, ok, run}
use hyper_share.Wire.Laws.{Reads, run-Reads, fields}
use hyper_share.Wire.Widths.{
  Takes, widths, Takes-bind, Takes-return, Takes-uint8, Takes-uint16, Takes-uint32, Takes-uint64,
}
use hyper_share.Protocol.Checksum.{calculate_crc32-lt, calculate_crc32_blind}
use hyper_share.Protocol.Header.{
  MessageHeader, message_header_size, serialize, read, deserialize, IsInRange, calculate_checksum,
  verify_checksum,
}

pub read-serialize :
    (header : MessageHeader) → IsInRange header → Reads read (serialize header) header
unfolding read serialize
read-serialize header v = search fields depth 26 fits 3000

-- Every serialized header has 32 bytes.
pub length-serialize : (header : MessageHeader) → length (serialize header) ≡ message_header_size
unfolding serialize
length-serialize header = simp (length-append, widths)

-- A serialized header with fields in the ranges of their types is read back, whatever bytes follow.
pub deserialize-serialize_header :
    (header : MessageHeader) (rest : Bytes)
    → IsInRange header
    → deserialize (serialize header ++ rest) ≡ ok header
unfolding deserialize
deserialize-serialize_header header rest v =
    rw
      (le→ltb (length (serialize header ++ rest)) message_header_size
        (omega (arith, length-append (serialize header) rest, length-serialize header)))
      (run-Reads (read-serialize header v) rest)

read-Takes : Takes message_header_size read
unfolding read
read-Takes = Takes-bind 4 28 _ _ Takes-uint32 λ magic. Takes-bind 2 26 _ _ Takes-uint16 λ version.
    Takes-bind 1 25 _ _ Takes-uint8 λ type. Takes-bind 1 24 _ _ Takes-uint8 λ flags.
      Takes-bind 8 16 _ _ Takes-uint64 λ message_id.
        Takes-bind 4 12 _ _ Takes-uint32 λ payload_size.
          Takes-bind 8 4 _ _ Takes-uint64 λ timestamp. Takes-bind 1 3 _ _ Takes-uint8 λ byte0.
            Takes-bind 1 2 _ _ Takes-uint8 λ byte1.
              Takes-bind 1 1 _ _ Takes-uint8
                λ byte2. Takes-bind 1 0 _ _ Takes-uint8 λ byte3. Takes-return _

-- `deserialize` succeeds on every span of 32 bytes or more.
pub deserialize_total :
    (data_span : Bytes)
    → message_header_size ≤ length data_span
    → (header : MessageHeader) × (deserialize data_span ≡ ok header)
unfolding deserialize
deserialize_total data_span h =
    let (header, rest, e, l) = read-Takes.takes data_span h in
    (header, rw (le→ltb (length data_span) message_header_size h, run, e))

-- A header passes the test of the payload for which its checksum was calculated.
pub verify-calculate_checksum :
    (header : MessageHeader) (payload : Bytes)
    → verify_checksum (calculate_checksum payload header) payload ≡ true
unfolding verify_checksum calculate_checksum
verify-calculate_checksum header payload =
    (==_iff _ _).1 (omega (arith, calculate_crc32-lt payload))

-- The checksum test cannot tell apart two payloads that differ in the first byte only, when both of
-- these bytes are below 244.
pub verify_checksum_blind :
    (header : MessageHeader) (a b : ℕ) (rest : Bytes)
    → a < 244
    → b < 244
    → verify_checksum header (a ∷ rest) ≡ verify_checksum header (b ∷ rest)
unfolding verify_checksum
verify_checksum_blind header a b rest ha hb = rw (calculate_crc32_blind a b rest ha hb)
