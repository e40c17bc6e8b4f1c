-- ===== src/Connection/Transfer.antt =====
-- What one connection sends the other one receives.
use hyper_share.Prelude.{
  ℕ, zero, suc, ◌≤◌, ◌<◌, ◌^◌, ◌≡◌, refl, length, take, drop, take-length-append,
  drop-length-append, length-append, append_assoc, append-nil, ap, ◌∙◌, if◌then◌else◌, arith, ltb,
  List, [], ◌∷◌, ◌++◌, All, true, map, le→ltb,
}
use hyper_share.Wire.{Bytes, ok}
use hyper_share.Protocol.Header.{
  MessageHeader, message_header_size, deserialize, verify_checksum, is_valid, serialize, IsInRange,
  new_header, calculate_checksum,
}
use hyper_share.Protocol.Header.Laws.{
  length-serialize, deserialize-serialize_header, verify-calculate_checksum,
}
use hyper_share.Connection.{
  message, closed, do_read_payload, do_read_header, read_loop, receive, max_payload, end_of_stream,
  frame, header_for,
}

-- A message as `send_raw` makes it. The id and the time are drawn by the sender.
pub record Outgoing : Type 0 where
  pub message_id : ℕ
  pub timestamp : ℕ
  pub msg_type : ℕ
  pub payload : Bytes

pub record IsSendable (m : Outgoing) : Type 0 where
  pub message_id_range : m.message_id < 2 ^ 64
  pub timestamp_range : m.timestamp < 2 ^ 64
  pub msg_type_range : m.msg_type < 2 ^ 8
  pub payload_range : length m.payload ≤ max_payload

abbrev pub header_of : Outgoing → MessageHeader
header_of m = header_for m.message_id m.timestamp m.msg_type m.payload

abbrev pub sent : Outgoing → Bytes
sent m = frame (header_of m) m.payload

abbrev pub sent_all : List Outgoing → Bytes
sent_all [] = []
sent_all (m ∷ ms) = sent m ++ sent_all ms

pub header_of-IsInRange : (m : Outgoing) → IsSendable m → IsInRange (header_of m)
unfolding header_for calculate_checksum new_header
header_of-IsInRange m v = omega arith

pub header_of-is_valid : (m : Outgoing) → is_valid (header_of m) ≡ true
unfolding header_for calculate_checksum new_header is_valid
header_of-is_valid m = refl

pub header_of_size : (m : Outgoing) → IsSendable m → (header_of m).payload_size ≡ length m.payload
unfolding header_for calculate_checksum new_header
header_of_size m v = omega arith

pub header_of_checked : (m : Outgoing) → verify_checksum (header_of m) m.payload ≡ true
unfolding header_for
header_of_checked m = verify-calculate_checksum _ m.payload

pub take_header :
    (h : MessageHeader) (rest : Bytes)
    → take message_header_size (serialize h ++ rest) ≡ serialize h
take_header h rest = rw (length-serialize h) at (take-length-append (serialize h) rest)

pub drop_header :
    (h : MessageHeader) (rest : Bytes) → drop message_header_size (serialize h ++ rest) ≡ rest
drop_header h rest = rw (length-serialize h) at (drop-length-append (serialize h) rest)

pub deserialize_header : (h : MessageHeader) → IsInRange h → deserialize (serialize h) ≡ ok h
deserialize_header h v = rw append-nil at (deserialize-serialize_header h [] v)

do_read_payload_sent :
    (h : MessageHeader) (payload rest : Bytes)
    → h.payload_size ≡ length payload
    → length payload ≤ max_payload
    → verify_checksum h payload ≡ true
    → do_read_payload h (payload ++ rest) ≡ message h payload rest
unfolding do_read_payload
do_read_payload_sent h payload rest e b c =
    let front : take h.payload_size (payload ++ rest) ≡ payload =
      ap (λ n. take n (payload ++ rest)) e ∙ take-length-append payload rest in
    let back : drop h.payload_size (payload ++ rest) ≡ rest =
      ap (λ n. drop n (payload ++ rest)) e ∙ drop-length-append payload rest in
    ground (arith, front, back, length-append payload rest)

-- An empty payload is delivered with no test.
do_read_rest_sent :
    (h : MessageHeader) (payload rest : Bytes)
    → h.payload_size ≡ length payload
    → length payload ≤ max_payload
    → verify_checksum h payload ≡ true
    → (if ltb 0 h.payload_size
        then do_read_payload h (payload ++ rest)
        else message h [] (payload ++ rest))
      ≡ message h payload rest
do_read_rest_sent h [] rest e b c = ground (arith, do_read_payload_sent h [] rest e b c)
do_read_rest_sent h (x ∷ xs) rest e b c = ground (arith, do_read_payload_sent h (x ∷ xs) rest e b c)

-- One turn takes one frame.
do_read_header_sent :
    (h : MessageHeader) (payload rest : Bytes)
    → IsInRange h
    → is_valid h ≡ true
    → h.payload_size ≡ length payload
    → length payload ≤ max_payload
    → verify_checksum h payload ≡ true
    → do_read_header (frame h payload ++ rest) ≡ message h payload rest
unfolding do_read_header
do_read_header_sent h payload rest r v e b c =
    let whole : frame h payload ++ rest ≡ serialize h ++ (payload ++ rest) =
      append_assoc (serialize h) payload rest in
    let front : take message_header_size (frame h payload ++ rest) ≡ serialize h =
      ap (take message_header_size) whole ∙ take_header h (payload ++ rest) in
    let back : drop message_header_size (frame h payload ++ rest) ≡ payload ++ rest =
      ap (drop message_header_size) whole ∙ drop_header h (payload ++ rest) in
    rw
      (
        le→ltb (length (frame h payload ++ rest)) message_header_size (
            omega (
              arith,
              length-append (serialize h ++ payload) rest,
              length-append (serialize h) payload,
              length-serialize h,
            )),
        front,
        deserialize_header h r,
        v,
        back,
      )
      (do_read_rest_sent h payload rest e b c)

do_read_header-nil : do_read_header [] ≡ closed end_of_stream
unfolding do_read_header
do_read_header-nil = refl

read_loop_sent :
    (ms : List Outgoing) (fuel : ℕ)
    → All IsSendable ms
    → length (sent_all ms) < fuel
    → read_loop fuel (sent_all ms)
      ≡ record { delivered = map (λ m. (header_of m, m.payload)) ms; outcome = end_of_stream }
unfolding read_loop
read_loop_sent ms zero v h = absurd (omega arith)
read_loop_sent [] (suc fuel) v h = rw (do_read_header-nil, read_loop)
read_loop_sent (m ∷ ms) (suc fuel) (v, vs) h = rw (
  do_read_header_sent (header_of m) m.payload (sent_all ms) (header_of-IsInRange m v)
      (header_of-is_valid m) (header_of_size m v) v.payload_range (header_of_checked m),
  read_loop,
  read_loop_sent ms fuel vs (
      omega (
        arith,
        length-append (sent m) (sent_all ms),
        length-append (serialize (header_of m)) m.payload,
        length-serialize (header_of m),
      )),
)

-- A peer receives just the messages that were sent, in order and with their headers, for payloads
-- of 10 MB at most.
pub receive-sent_all :
    (ms : List Outgoing)
    → All IsSendable ms
    → receive (sent_all ms)
      ≡ record { delivered = map (λ m. (header_of m, m.payload)) ms; outcome = end_of_stream }
unfolding receive
receive-sent_all ms v = read_loop_sent ms (suc (length (sent_all ms))) v (omega arith)
