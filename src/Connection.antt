-- ===== src/Connection.antt =====
-- `Connection` of src/network/connection.cpp. The socket is a log: `started` lists the buffers that
-- were given to `async_write`, in order, and the incoming side is the list of bytes that the peer
-- has sent before it closes. Completions come as events, one at a time, as on the io_context;
-- the message handler is taken not to close the connection from within.
pub mod Receive
pub mod Transfer
pub mod WriteQueue
mod Runs
use hyper_share.Prelude.{
  ℕ, zero, suc, ◌+◌, ◌*◌, ◌^◌, ◌%◌, Bool, true, false, not, ◌&&◌, ◌||◌, List, [], ◌∷◌, ◌++◌, length,
  take, drop, ltb, if◌then◌else◌,
}
use hyper_share.Wire.{Bytes, ok, err}
use hyper_share.Protocol.Header.{
  MessageHeader, message_header_size, new_header, is_valid, calculate_checksum, verify_checksum,
  serialize, deserialize,
}

pub data ConnectionState : Type 0 where
  disconnected connecting connected authenticated closing : ConnectionState

-- Every buffer is `header.serialize()` followed by the payload. `disconnects` counts the calls of
-- the disconnect handler.
pub record Connection : Type 0 where
  pub state : ConnectionState
  pub write_queue : List Bytes
  pub write_in_progress : Bool
  pub started : List Bytes
  pub disconnects : ℕ

pub new_connection : Connection
new_connection = record {
  state = connected;
  write_queue = [];
  write_in_progress = false;
  started = [];
  disconnects = 0;
}

abbrev pub null : List Bytes → Bool
null [] = true
null (x ∷ xs) = false

abbrev pub tail : List Bytes → List Bytes
tail [] = []
tail (x ∷ xs) = xs

abbrev pub front_of : List Bytes → List Bytes
front_of [] = []
front_of (x ∷ xs) = x ∷ []

-- The two states in which `close` returns at once.
abbrev pub is_down : ConnectionState → Bool
is_down disconnected = true
is_down closing = true
is_down _ = false

-- The states in which a message is accepted.
abbrev pub is_active : ConnectionState → Bool
is_active connected = true
is_active authenticated = true
is_active _ = false

pub close : Connection → Connection
close c =
    if is_down c.state
    then c
    else record c { state = disconnected; disconnects = c.disconnects + 1 }

pub do_write : Connection → Connection
do_write c =
    if null c.write_queue || c.write_in_progress
    then c
    else record c { write_in_progress = true; started = c.started ++ front_of c.write_queue }

abbrev pub frame : MessageHeader → Bytes → Bytes
frame header payload = serialize header ++ payload

pub send_message : MessageHeader → Bytes → Connection → Connection
unfolding do_write
send_message header payload c =
    if is_active c.state
    then (let queued = record c { write_queue = c.write_queue ++ (frame header payload ∷ []) } in
        if null c.write_queue && not c.write_in_progress then do_write queued else queued)
    else c

-- `MessageHeader header(type, size); header.calculate_checksum(payload);`
unfoldable pub header_for : (message_id timestamp msg_type : ℕ) → Bytes → MessageHeader
header_for message_id timestamp msg_type payload =
    calculate_checksum payload (new_header message_id timestamp msg_type (length payload % 2 ^ 32))

pub send_raw : (message_id timestamp msg_type : ℕ) → Bytes → Connection → Connection
unfolding send_message header_for
send_raw message_id timestamp msg_type payload c =
    send_message (header_for message_id timestamp msg_type payload) payload c

-- The completion handler of `do_write`, without and with an error.
pub write_done : Connection → Connection
unfolding do_write
write_done c =
    let popped = record c { write_in_progress = false; write_queue = tail c.write_queue } in
    if null (tail c.write_queue) then popped else do_write popped

pub write_failed : Connection → Connection
unfolding close
write_failed c = close (record c { write_in_progress = false })

-- The read side. `delivered` lists the calls of the message handler.
pub data Outcome : Type 0 where
  end_of_stream bad_header payload_too_large checksum_mismatch out_of_fuel : Outcome

abbrev pub Message : Type 0
Message = MessageHeader × Bytes

pub record Received : Type 0 where
  pub delivered : List Message
  pub outcome : Outcome

abbrev pub max_payload : ℕ
max_payload = 10 * 1024 * 1024

abbrev pub stop : Outcome → Received
stop o = record { delivered = []; outcome = o }

abbrev pub deliver : Message → Received → Received
deliver m r = record r { delivered = m ∷ r.delivered }

-- One turn of `do_read_header` and `do_read_payload`: the message that goes to the handler with the
-- rest of the stream, or the reason for which the connection is closed. `async_read` fails with
-- `eof` where the stream ends before the buffer is full.
pub data Turn : Type 0 where
  message : MessageHeader → Bytes → Bytes → Turn
  closed : Outcome → Turn

pub do_read_payload : MessageHeader → Bytes → Turn
do_read_payload header stream =
    if ltb max_payload header.payload_size
    then closed payload_too_large
    else if ltb (length stream) header.payload_size
    then closed end_of_stream
    else if verify_checksum header (take header.payload_size stream)
    then message header (take header.payload_size stream) (drop header.payload_size stream)
    else closed checksum_mismatch

pub do_read_header : Bytes → Turn
do_read_header stream =
    if ltb (length stream) message_header_size
    then closed end_of_stream
    else elim (deserialize (take message_header_size stream)) [
      | err e ↦ closed bad_header
      | ok header ↦
          if is_valid header
          then (if ltb 0 header.payload_size
              then do_read_payload header (drop message_header_size stream)
              else message header [] (drop message_header_size stream))
          else closed bad_header
    ]

pub read_loop : ℕ → Bytes → Received
read_loop zero stream = stop out_of_fuel
read_loop (suc fuel) stream = elim (do_read_header stream) [
  | closed o ↦ stop o
  | message header payload rest ↦ deliver (header, payload) (read_loop fuel rest)
]

-- `start()`. A turn that delivers takes 32 bytes or more.
pub receive : Bytes → Received
unfolding read_loop do_read_header do_read_payload
receive stream = read_loop (suc (length stream)) stream
