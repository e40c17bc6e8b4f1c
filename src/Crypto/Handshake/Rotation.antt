-- ===== src/Crypto/Handshake/Rotation.antt =====
-- `KeyRotationMessage` of src/crypto/secure_handshake.cpp.
use hyper_share.Prelude.{ℕ, ◌<◌, ◌≡◌, ◌^◌, ◌++◌, length}
use hyper_share.Wire.{Bytes, Reader, ◌>>=◌, return, write_bytes, write_uint64, read_uint64}
use hyper_share.Wire.Laws.{Reads, Reads-bind, Reads-last, Reads-return, Reads-uint64}
use hyper_share.Wire.Prefix.{Extends, prefixes}
use hyper_share.Crypto.Handshake.Arrays.{key_size, signature_size, read_array, Reads-array}
use hyper_share.Protocol.Payload.{MessagePayload}

pub record KeyRotationMessage : Type 0 where
  pub rotation_id : ℕ
  pub new_ephemeral_public_key : Bytes
  pub nonce : ℕ
  pub timestamp : ℕ
  pub signature : Bytes

unfoldable pub serialize : KeyRotationMessage → Bytes
serialize msg =
    write_uint64 msg.rotation_id
    ++ (write_bytes msg.new_ephemeral_public_key
        ++ (write_uint64 msg.nonce ++ (write_uint64 msg.timestamp ++ (write_bytes msg.signature))))

unfoldable pub serialize_for_signature : KeyRotationMessage → Bytes
serialize_for_signature msg =
    write_uint64 msg.rotation_id
    ++ (write_bytes msg.new_ephemeral_public_key
        ++ (write_uint64 msg.nonce ++ (write_uint64 msg.timestamp)))

unfoldable pub read : Reader KeyRotationMessage
read = do
  rotation_id ← read_uint64
  new_ephemeral_public_key ← read_array key_size
  nonce ← read_uint64
  timestamp ← read_uint64
  signature ← read_array signature_size
  return (record {
    rotation_id = rotation_id;
    new_ephemeral_public_key = new_ephemeral_public_key;
    nonce = nonce;
    timestamp = timestamp;
    signature = signature;
  })

-- The ranges of the fields' C++ types.
pub record IsValid (msg : KeyRotationMessage) : Type 0 where
  pub rotation_id_range : msg.rotation_id < 2 ^ 64
  pub new_ephemeral_public_key_range : length msg.new_ephemeral_public_key ≡ 32
  pub nonce_range : msg.nonce < 2 ^ 64
  pub timestamp_range : msg.timestamp < 2 ^ 64
  pub signature_range : length msg.signature ≡ 64

pub read-serialize : (msg : KeyRotationMessage) → IsValid msg → Reads read (serialize msg) msg
unfolding read serialize
read-serialize msg v = Reads-bind _ _ _ _ _ _ (Reads-uint64 msg.rotation_id v.rotation_id_range) (
    Reads-bind _ _ _ _ _ _
      (Reads-array 32 msg.new_ephemeral_public_key v.new_ephemeral_public_key_range)
      (Reads-bind _ _ _ _ _ _ (Reads-uint64 msg.nonce v.nonce_range) (
        Reads-bind _ _ _ _ _ _ (Reads-uint64 msg.timestamp v.timestamp_range) (
          Reads-last _ _ _ _ _ (Reads-array 64 msg.signature v.signature_range)
            (Reads-return msg)))))

pub read-Extends : Extends read
unfolding read
read-Extends = search prefixes depth 20

abbrev pub payload : MessagePayload KeyRotationMessage
payload = record {
  serialize = serialize;
  read = read;
  IsValid = IsValid;
  carried = λ msg. msg;
  read-serialize = read-serialize;
  read-Extends = read-Extends;
}
