-- ===== src/Protocol/ErrorResponse.antt =====
-- `ErrorMessage` of src/network/protocol.cpp.
use hyper_share.Prelude.{ℕ, ◌<◌, ◌^◌, ◌++◌, length}
use hyper_share.Wire.{
  Bytes, Reader, ◌>>=◌, return, write_uint32, write_uint64, write_string, read_uint32, read_uint64,
  read_string,
}
use hyper_share.Wire.Laws.{Reads, fields}
use hyper_share.Wire.Prefix.{Extends, prefixes}
use hyper_share.Protocol.Payload.{MessagePayload}

pub record ErrorMessage : Type 0 where
  pub error_code : ℕ
  pub error_message : Bytes
  pub request_id : ℕ

unfoldable pub serialize : ErrorMessage → Bytes
serialize msg =
    write_uint32 msg.error_code ++ (write_string msg.error_message ++ (write_uint64 msg.request_id))

unfoldable pub read : Reader ErrorMessage
read = do
  error_code ← read_uint32
  error_message ← read_string
  request_id ← read_uint64
  return
      (record { error_code = error_code; error_message = error_message; request_id = request_id })

-- The ranges of the fields' C++ types.
pub record IsValid (msg : ErrorMessage) : Type 0 where
  pub error_code_range : msg.error_code < 2 ^ 32
  pub error_message_range : length msg.error_message < 2 ^ 32
  pub request_id_range : msg.request_id < 2 ^ 64

pub read-serialize : (msg : ErrorMessage) → IsValid msg → Reads read (serialize msg) msg
unfolding read serialize
read-serialize msg v = search fields depth 14

pub read-Extends : Extends read
unfolding read
read-Extends = search prefixes depth 14

abbrev pub payload : MessagePayload ErrorMessage
payload = record {
  serialize = serialize;
  read = read;
  IsValid = IsValid;
  carried = λ msg. msg;
  read-serialize = read-serialize;
  read-Extends = read-Extends;
}
