-- ===== src/Connection/Runs.antt =====
-- Runs of the connection on small streams and queues.
use hyper_share.Prelude.{◌≡◌, ◌≢◌, refl, List, [], ◌∷◌, ◌++◌, map, length, arith, All, ◌⊎◌, true}
use hyper_share.Wire.{Bytes}
use hyper_share.Protocol.Header.{MessageHeader}
use hyper_share.Connection.{
  Connection, new_connection, frame, send_message, do_write, write_done, receive, end_of_stream,
  out_of_fuel, is_active, is_down, header_for,
}
use hyper_share.Connection.Receive.{receive-ne-fuel, receive-IsSound, IsSound}
use hyper_share.Connection.Transfer.{Outgoing, IsSendable, header_of, sent_all, receive-sent_all}
use hyper_share.Connection.WriteQueue.{
  Reach, start, sends, completes, Reach-order, complete_writes, complete_writes-Reach,
}

abbrev greeting : Outgoing
greeting = record { message_id = 7; timestamp = 9; msg_type = 1; payload = b'h' ∷ b'i' ∷ [] }

abbrev heartbeat : Outgoing
heartbeat = record { message_id = 8; timestamp = 10; msg_type = 2; payload = [] }

abbrev two_messages : List Outgoing
two_messages = greeting ∷ heartbeat ∷ []

two_messages-IsSendable : All IsSendable two_messages
two_messages-IsSendable = (
  record {
    message_id_range = omega arith;
    timestamp_range = omega arith;
    msg_type_range = omega arith;
    payload_range = omega arith;
  },
  (
    record {
      message_id_range = omega arith;
      timestamp_range = omega arith;
      msg_type_range = omega arith;
      payload_range = omega arith;
    },
    tt,
  ),
)

receive-sent_all_example : receive (sent_all two_messages) ≡ record {
  delivered = map (λ m. (header_of m, m.payload)) two_messages;
  outcome = end_of_stream;
}
receive-sent_all_example = receive-sent_all two_messages two_messages-IsSendable

receive-IsSound_example : All IsSound (receive (sent_all two_messages ++ 1 ∷ [])).delivered
receive-IsSound_example = receive-IsSound (sent_all two_messages ++ 1 ∷ [])

receive-ne-fuel_example : (receive (sent_all two_messages ++ 1 ∷ [])).outcome ≢ out_of_fuel
receive-ne-fuel_example = receive-ne-fuel (sent_all two_messages ++ 1 ∷ [])

abbrev small_header : MessageHeader
small_header = header_for 7 9 1 (1 ∷ [])

-- Two messages are sent before the first write completes.
abbrev two_queued : Connection
two_queued = send_message small_header (2 ∷ []) (send_message small_header (1 ∷ []) new_connection)

abbrev two_frames : List Bytes
two_frames = ([] ++ (frame small_header (1 ∷ []) ∷ [])) ++ (frame small_header (2 ∷ []) ∷ [])

two_queued-Reach : Reach two_queued two_frames
unfolding send_message new_connection do_write
two_queued-Reach = sends small_header (2 ∷ []) (sends small_header (1 ∷ []) start refl) refl

one_done-Reach : Reach (write_done two_queued) two_frames
unfolding send_message new_connection do_write
one_done-Reach = completes two_queued-Reach refl

Reach-order_example :
    ((rest : List Bytes) × ((write_done two_queued).started ++ rest ≡ two_frames))
    × (((is_active (write_done two_queued).state ≡ true)
          × ((write_done two_queued).disconnects ≡ 0))
        ⊎ ((is_down (write_done two_queued).state ≡ true)
            × ((write_done two_queued).disconnects ≡ 1)))
Reach-order_example = Reach-order {c = write_done two_queued} {sent = two_frames} one_done-Reach

two_queued_active : is_active two_queued.state ≡ true
unfolding send_message new_connection do_write
two_queued_active = refl

complete_writes-Reach_example :
    ((complete_writes (length two_queued.write_queue) two_queued).started ≡ two_frames)
    × ((complete_writes (length two_queued.write_queue) two_queued).write_queue ≡ [])
complete_writes-Reach_example =
    complete_writes-Reach {c = two_queued} {sent = two_frames} two_queued-Reach two_queued_active
