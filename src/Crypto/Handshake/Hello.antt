-- ===== src/Crypto/Handshake/Hello.antt =====
-- `SecureHandshakeMessage` of src/crypto/secure_handshake.cpp.
use hyper_share.Prelude.{ℕ, ◌<◌, ◌≡◌, ◌^◌, ◌++◌, length}
use hyper_share.Wire.{
  Bytes, Reader, ◌>>=◌, return, write_bytes, write_string, write_uint16, write_uint32, write_uint64,
  read_string, read_uint16, read_uint32, read_uint64,
}
use hyper_share.Wire.Laws.{
  Reads, Reads-bind, Reads-last, Reads-return, Reads-string, Reads-uint16, Reads-uint32,
  Reads-uint64,
}
use hyper_share.Wire.Prefix.{Extends, prefixes}
use hyper_share.Crypto.Handshake.Arrays.{key_size, signature_size, read_array, Reads-array}
use hyper_share.Protocol.Payload.{MessagePayload}

pub record SecureHandshakeMessage : Type 0 where
  pub peer_id : ℕ
  pub listen_port : ℕ
  pub peer_name : Bytes
  pub capabilities : ℕ
  pub identity_public_key : Bytes
  pub ephemeral_public_key : Bytes
  pub nonce : ℕ
  pub signature : Bytes

unfoldable pub serialize : SecureHandshakeMessage → Bytes
serialize msg =
    write_uint32 msg.peer_id
    ++ (write_uint16 msg.listen_port
        ++ (write_string msg.peer_name
            ++ (write_uint32 msg.capabilities
                ++ (write_bytes msg.identity_public_key
                    ++ (write_bytes msg.ephemeral_public_key
                        ++ (write_uint64 msg.nonce ++ (write_bytes msg.signature)))))))

unfoldable pub serialize_for_signature : SecureHandshakeMessage → Bytes
serialize_for_signature msg =
    write_uint32 msg.peer_id
    ++ (write_uint16 msg.listen_port
        ++ (write_string msg.peer_name
            ++ (write_uint32 msg.capabilities
                ++ (write_bytes msg.identity_public_key
                    ++ (write_bytes msg.ephemeral_public_key ++ (write_uint64 msg.nonce))))))

unfoldable pub read : Reader SecureHandshakeMessage
read = do
  peer_id ← read_uint32
  listen_port ← read_uint16
  peer_name ← read_string
  capabilities ← read_uint32
  identity_public_key ← read_array key_size
  ephemeral_public_key ← read_array key_size
  nonce ← read_uint64
  signature ← read_array signature_size
  return (record {
    peer_id = peer_id;
    listen_port = listen_port;
    peer_name = peer_name;
    capabilities = capabilities;
    identity_public_key = identity_public_key;
    ephemeral_public_key = ephemeral_public_key;
    nonce = nonce;
    signature = signature;
  })

-- The ranges of the fields' C++ types.
pub record IsValid (msg : SecureHandshakeMessage) : Type 0 where
  pub peer_id_range : msg.peer_id < 2 ^ 32
  pub listen_port_range : msg.listen_port < 2 ^ 16
  pub peer_name_range : length msg.peer_name < 2 ^ 32
  pub capabilities_range : msg.capabilities < 2 ^ 32
  pub identity_public_key_range : length msg.identity_public_key ≡ 32
  pub ephemeral_public_key_range : length msg.ephemeral_public_key ≡ 32
  pub nonce_range : msg.nonce < 2 ^ 64
  pub signature_range : length msg.signature ≡ 64

pub read-serialize : (msg : SecureHandshakeMessage) → IsValid msg → Reads read (serialize msg) msg
unfolding read serialize
read-serialize msg v = Reads-bind _ _ _ _ _ _ (Reads-uint32 msg.peer_id v.peer_id_range) (
    Reads-bind _ _ _ _ _ _ (Reads-uint16 msg.listen_port v.listen_port_range) (
      Reads-bind _ _ _ _ _ _ (Reads-string msg.peer_name v.peer_name_range) (
        Reads-bind _ _ _ _ _ _ (Reads-uint32 msg.capabilities v.capabilities_range) (
          Reads-bind _ _ _ _ _ _
            (Reads-array 32 msg.identity_public_key v.identity_public_key_range)
            (Reads-bind _ _ _ _ _ _
              (Reads-array 32 msg.ephemeral_public_key v.ephemeral_public_key_range)
              (Reads-bind _ _ _ _ _ _ (Reads-uint64 msg.nonce v.nonce_range) (
                Reads-last _ _ _ _ _ (Reads-array 64 msg.signature v.signature_range)
                  (Reads-return msg))))))))

pub read-Extends : Extends read
unfolding read
read-Extends = search prefixes depth 20

abbrev pub payload : MessagePayload SecureHandshakeMessage
payload = record {
  serialize = serialize;
  read = read;
  IsValid = IsValid;
  carried = λ msg. msg;
  read-serialize = read-serialize;
  read-Extends = read-Extends;
}
