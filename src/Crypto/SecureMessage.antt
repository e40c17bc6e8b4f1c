-- ===== src/Crypto/SecureMessage.antt =====
-- `SecureMessage` and `SecureMessageHandler` of src/network/secure_message.cpp.
pub mod Sealing
use hyper_share.Prelude.{
  ℕ, ◌+◌, ◌-◌, ◌<◌, ◌≤◌, ◌^◌, ◌≡◌, ◌≢◌, refl, ap, Bool, true, false, List, [], ◌∷◌, ◌++◌, Option,
  none, some, ltb, if◌then◌else◌, length, take, drop, arith, length-append, length-take,
  length-drop, inl, inr, Bool-cases, Option-cases,
}
use hyper_share.Wire.{
  Bytes, Error, Reader, Result, ok, err, ◌>>=◌, return, run, write_uint8, write_uint64, write_size,
  write_bytes, read_bytes, read_uint8, read_uint32, read_uint64, byte_at,
}
use hyper_share.Wire.Laws.{
  Reads, Reads-bind, Reads-last, Reads-return, Reads-bytes, Reads-size, Reads-uint8, Reads-uint64,
  run-Reads,
}
use hyper_share.Crypto.Encryption.{
  EncryptedMessage, Aead, IsAead, CryptoResult, success, failure, encrypt, decrypt, is_empty,
  split_tag, opened,
}
use hyper_share.Crypto.Encryption as Encryption

pub record SecureMessage : Type 0 where
  pub original_type : ℕ
  pub sequence_number : ℕ
  pub encrypted_payload : EncryptedMessage

unfoldable pub serialize : SecureMessage → Bytes
serialize msg =
    let encrypted_data = Encryption.serialize msg.encrypted_payload in
    write_uint8 msg.original_type
    ++ (write_uint64 msg.sequence_number
        ++ (write_size (length encrypted_data) ++ write_bytes encrypted_data))

abbrev pub behind : Bytes → Result EncryptedMessage → Result (EncryptedMessage × Bytes)
behind rest (ok msg) = ok (msg, rest)
behind rest (err e) = err e

-- `EncryptedMessage::deserialize` of a span of its own.
unfoldable pub read_payload : Bytes → Reader EncryptedMessage
read_payload encrypted_span rest = behind rest (run Encryption.read encrypted_span)

unfoldable pub read : Reader SecureMessage
read = do
  original_type ← read_uint8
  sequence_number ← read_uint64
  encrypted_size ← read_uint32
  encrypted_span ← read_bytes Error.encrypted_payload encrypted_size
  encrypted_payload ← read_payload encrypted_span
  return (record {
    original_type = original_type;
    sequence_number = sequence_number;
    encrypted_payload = encrypted_payload;
  })

unfoldable pub deserialize : Bytes → Result SecureMessage
deserialize data_span = run read data_span

unfoldable pub create_aad : (type sequence_number : ℕ) → Bytes
create_aad type sequence_number =
    write_uint8 type ++ (write_uint64 sequence_number ++ b'H' ∷ b'Y' ∷ b'P' ∷ b'E' ∷ b'R' ∷ [])

abbrev pub is_success : {A : Type 0} → CryptoResult A → Bool
is_success (success a) = true
is_success (failure e) = false

unfoldable pub verify_message_integrity : Aead → SecureMessage → (key : Bytes) → Bool
verify_message_integrity a msg key =
    is_success
      (decrypt a msg.encrypted_payload (create_aad msg.original_type msg.sequence_number) key)
