-- ===== src/Crypto/Handshake/Ack.antt =====
-- `SecureHandshakeAckMessage` of src/crypto/secure_handshake.cpp.
use hyper_share.Prelude.{ℕ, ◌<◌, ◌≡◌, ◌^◌, ◌++◌, length}
use hyper_share.Wire.{
  Bytes, Reader, ◌>>=◌, return, write_bytes, write_uint32, write_uint64, read_uint32, read_uint64,
}
use hyper_share.Wire.Laws.{Reads, Reads-bind, Reads-last, Reads-return, Reads-uint32, Reads-uint64}
use hyper_share.Wire.Prefix.{Extends, prefixes}
use hyper_share.Crypto.Handshake.Arrays.{key_size, signature_size, read_array, Reads-array}
use hyper_share.Protocol.Payload.{MessagePayload}

pub record SecureHandshakeAckMessage : Type 0 where
  pub peer_id : ℕ
  pub ephemeral_public_key : Bytes
  pub nonce : ℕ
  pub response_nonce : ℕ
  pub signature : Bytes

unfoldable pub serialize : SecureHandshakeAckMessage → Bytes
serialize msg =
    write_uint32 msg.peer_id
    ++ (write_bytes msg.ephemeral_public_key
        ++ (write_uint64 msg.nonce
            ++ (write_uint64 msg.response_nonce ++ (write_bytes msg.signature))))

unfoldable pub serialize_for_signature : SecureHandshakeAckMessage → Bytes
serialize_for_signature msg =
    write_uint32 msg.peer_id
    ++ (write_bytes msg.ephemeral_public_key
        ++ (write_uint64 msg.nonce ++ (write_uint64 msg.response_nonce)))

unfoldable pub read : Reader SecureHandshakeAckMessage
read = do
  peer_id ← read_uint32
  ephemeral_public_key ← read_array key_size
  nonce ← read_uint64
  response_nonce ← read_uint64
  signature ← read_array signature_size
  return (record {
    peer_id = peer_id;
    ephemeral_public_key = ephemeral_public_key;
    nonce = nonce;
    response_nonce = response_nonce;
    signature = signature;
  })

-- The ranges of the fields' C++ types.
pub record IsValid (msg : SecureHandshakeAckMessage) : Type 0 where
  pub peer_id_range : msg.peer_id < 2 ^ 32
  pub ephemeral_public_key_range : length msg.ephemeral_public_key ≡ 32
  pub nonce_range : msg.nonce < 2 ^ 64
  pub response_nonce_range : msg.response_nonce < 2 ^ 64
  pub signature_range : length msg.signature ≡ 64

pub read-serialize :
    (msg : SecureHandshakeAckMessage) → IsValid msg → Reads read (serialize msg) msg
unfolding read serialize
read-serialize msg v = Reads-bind _ _ _ _ _ _ (Reads-uint32 msg.peer_id v.peer_id_range) (
    Reads-bind _ _ _ _ _ _ (Reads-array 32 msg.ephemeral_public_key v.ephemeral_public_key_range) (
      Reads-bind _ _ _ _ _ _ (Reads-uint64 msg.nonce v.nonce_range) (
        Reads-bind _ _ _ _ _ _ (Reads-uint64 msg.response_nonce v.response_nonce_range) (
          Reads-last _ _ _ _ _ (Reads-array 64 msg.signature v.signature_range)
            (Reads-return msg)))))

pub read-Extends : Extends read
unfolding read
read-Extends = search prefixes depth 20

abbrev pub payload : MessagePayload SecureHandshakeAckMessage
payload = record {
  serialize = serialize;
  read = read;
  IsValid = IsValid;
  carried = λ msg. msg;
  read-serialize = read-serialize;
  read-Extends = read-Extends;
}
