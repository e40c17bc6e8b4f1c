-- ===== src/MessageSerializer/Runs.antt =====
-- Runs of the deserializer on a message of two bytes.
use hyper_share.Prelude.{◌+◌, ◌≤◌, ◌≡◌, ◌⊎◌, true, [], ◌∷◌, ◌++◌, length, arith}
use hyper_share.Wire.{ok}
use hyper_share.Protocol.Header.{is_valid, verify_checksum, message_header_size}
use hyper_share.Connection.Transfer.{Outgoing, IsSendable, sent, header_of}
use hyper_share.MessageSerializer.{deserialize_message}
use hyper_share.MessageSerializer.Laws.{deserialize_message-sent, deserialize_message_sound}

abbrev greeting : Outgoing
greeting = record { message_id = 7; timestamp = 9; msg_type = 1; payload = b'h' ∷ b'i' ∷ [] }

greeting-IsSendable : IsSendable greeting
greeting-IsSendable = record {
  message_id_range = omega arith;
  timestamp_range = omega arith;
  msg_type_range = omega arith;
  payload_range = omega arith;
}

deserialize_message-sent_example :
    deserialize_message (sent greeting ++ 5 ∷ []) ≡ ok (header_of greeting, greeting.payload)
deserialize_message-sent_example = deserialize_message-sent greeting (5 ∷ []) greeting-IsSendable

deserialize_message_sound_example :
    (is_valid (header_of greeting) ≡ true)
    × (length greeting.payload ≡ (header_of greeting).payload_size)
    × (message_header_size + (header_of greeting).payload_size ≤ length (sent greeting ++ 5 ∷ []))
    × (((header_of greeting).payload_size ≡ 0)
        ⊎ (verify_checksum (header_of greeting) greeting.payload ≡ true))
deserialize_message_sound_example =
    deserialize_message_sound (sent greeting ++ 5 ∷ []) (header_of greeting) greeting.payload
      deserialize_message-sent_example
