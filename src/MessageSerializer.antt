-- ===== src/MessageSerializer.antt =====
-- `MessageSerializer::deserialize_message` of src/network/message_handler.cpp: a whole message out
-- of one buffer.
pub mod Laws
mod Runs
use hyper_share.Prelude.{
  ℕ, ◌+◌, ◌≤◌, ◌<◌, ◌≡◌, ◌++◌, ◌∙◌, ap, refl, Bool, List, [], ◌∷◌, length, take, drop, ltb,
  if◌then◌else◌, arith, append_assoc, le→ltb, take-length-append, drop-length-append, length-append,
  inl, inr, Bool-cases, true,
}
use hyper_share.Wire.{Bytes, Error, Result, ok, err}
use hyper_share.Wire.Prefix.{Result-cases}
use hyper_share.Protocol.Header.{
  MessageHeader, message_header_size, is_valid, verify_checksum, serialize, deserialize, IsInRange,
}
use hyper_share.Protocol.Header.Laws.{length-serialize, deserialize_total}
use hyper_share.Connection.{header_for}
use hyper_share.Connection.Transfer.{
  Outgoing, IsSendable, header_of, sent, header_of-IsInRange, header_of-is_valid, header_of_size,
  header_of_checked, take_header, drop_header, deserialize_header,
}

-- What follows the test of the header: the payload's size and checksum.
read_payload : MessageHeader → Bytes → Result (MessageHeader × Bytes)
read_payload header data_span =
    if ltb (length data_span) (message_header_size + header.payload_size)
    then err Error.message_payload
    else if ltb 0 header.payload_size
    then (let payload = take header.payload_size (drop message_header_size data_span) in
        if verify_checksum header payload then ok (header, payload) else err Error.checksum_failed)
    else ok (header, [])

pub deserialize_message : Bytes → Result (MessageHeader × Bytes)
deserialize_message data_span =
    if ltb (length data_span) message_header_size
    then err Error.message_header
    else elim (deserialize (take message_header_size data_span)) [
      | err e ↦ err e
      | ok header ↦
          if is_valid header then read_payload header data_span else err Error.invalid_header
    ]
