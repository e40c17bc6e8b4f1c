-- ===== src/MessageSerializer/Laws.antt =====
-- What `deserialize_message` accepts, and that it reads what a connection sends.
use hyper_share.Prelude.{
  ℕ, ◌+◌, ◌≤◌, ◌≡◌, ◌++◌, ◌∙◌, ap, [], ◌∷◌, length, take, drop, arith, ◌⊎◌, length-take,
  length-drop, append_assoc, le→ltb, take-length-append, length-append, inl, inr, true,
}
use hyper_share.Wire.{Bytes, ok}
use hyper_share.Wire.Prefix.{Result-cases}
use hyper_share.Protocol.Header.{
  MessageHeader, message_header_size, is_valid, verify_checksum, serialize, deserialize,
}
use hyper_share.Protocol.Header.Laws.{length-serialize}
use hyper_share.Connection.Transfer.{
  Outgoing, IsSendable, header_of, sent, header_of-IsInRange, header_of-is_valid, header_of_size,
  header_of_checked, take_header, drop_header, deserialize_header,
}
use hyper_share.MessageSerializer.{read_payload, deserialize_message}

read_payload_cut :
    (h : MessageHeader) (payload whole : Bytes) (k : ℕ)
    → verify_checksum h payload ≡ true
    → h.payload_size ≡ length payload
    → take h.payload_size (drop message_header_size whole) ≡ payload
    → length whole ≡ message_header_size + h.payload_size + k
    → read_payload h whole ≡ ok (h, payload)
unfolding read_payload
read_payload_cut h [] whole k c e f fits = ground arith
read_payload_cut h (x ∷ xs) whole k c e f fits = ground arith

read_payload_sent :
    (h : MessageHeader) (payload rest whole : Bytes)
    → whole ≡ serialize h ++ (payload ++ rest)
    → h.payload_size ≡ length payload
    → verify_checksum h payload ≡ true
    → read_payload h whole ≡ ok (h, payload)
unfolding read_payload
read_payload_sent h payload rest whole w e c =
    let back : drop message_header_size whole ≡ payload ++ rest =
      ap (drop message_header_size) w ∙ drop_header h (payload ++ rest) in
    let front : take h.payload_size (drop message_header_size whole) ≡ payload =
      ap (λ l. take h.payload_size l) back
      ∙ ap (λ n. take n (payload ++ rest)) e
      ∙ take-length-append payload rest in
    let fits : length whole ≡ message_header_size + h.payload_size + length rest =
      ap (λ (l : Bytes). length l) w
      ∙ omega (
        arith,
        length-append (serialize h) (payload ++ rest),
        length-append payload rest,
        length-serialize h,
        e,
      ) in
    read_payload_cut h payload whole (length rest) c e front fits

-- What `send_raw` puts on the wire is read back from any buffer that begins with it, for payloads of
-- 10 MB at most.
pub deserialize_message-sent :
    (m : Outgoing) (rest : Bytes)
    → IsSendable m
    → deserialize_message (sent m ++ rest) ≡ ok (header_of m, m.payload)
unfolding deserialize_message
deserialize_message-sent m rest v =
    let h : MessageHeader = header_of m in
    let whole : sent m ++ rest ≡ serialize h ++ (m.payload ++ rest) =
      append_assoc (serialize h) m.payload rest in
    let front : take message_header_size (sent m ++ rest) ≡ serialize h =
      ap (take message_header_size) whole ∙ take_header h (m.payload ++ rest) in
    rw
      (
        le→ltb (length (sent m ++ rest)) message_header_size (
            omega (
              arith,
              length-append (sent m) rest,
              length-append (serialize h) m.payload,
              length-serialize h,
            )),
        front,
        deserialize_header h (header_of-IsInRange m v),
        header_of-is_valid m,
      )
      (read_payload_sent h m.payload rest (sent m ++ rest) whole (header_of_size m v)
        (header_of_checked m))

read_payload_sound :
    (h header : MessageHeader) (data_span payload : Bytes)
    → read_payload h data_span ≡ ok (header, payload)
    → is_valid h ≡ true
    → (is_valid header ≡ true)
      × (length payload ≡ header.payload_size)
      × (message_header_size + header.payload_size ≤ length data_span)
      × ((header.payload_size ≡ 0) ⊎ (verify_checksum header payload ≡ true))
unfolding read_payload
read_payload_sound h header data_span payload e v = ground (
  arith,
  length-take h.payload_size (drop message_header_size data_span),
  length-drop message_header_size data_span,
)

-- An accepted message has a valid header and a payload of the announced size that lies within the
-- buffer, and passes the checksum unless it is empty.
pub deserialize_message_sound :
    (data_span : Bytes) (header : MessageHeader) (payload : Bytes)
    → deserialize_message data_span ≡ ok (header, payload)
    → (is_valid header ≡ true)
      × (length payload ≡ header.payload_size)
      × (message_header_size + header.payload_size ≤ length data_span)
      × ((header.payload_size ≡ 0) ⊎ (verify_checksum header payload ≡ true))
unfolding deserialize_message
deserialize_message_sound data_span header payload h =
    elim (Result-cases (deserialize (take message_header_size data_span))) [
      | inl (x, q) ↦ ground (arith, q, read_payload_sound x header data_span payload)
      | inr (x, q) ↦ ground (arith, q)
    ]
