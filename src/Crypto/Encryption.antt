-- ===== src/Crypto/Encryption.antt =====
-- `EncryptedMessage` and `EncryptionEngine` of src/crypto/encryption.cpp. The cipher of libsodium is
-- an interface: a call gives bytes, or fails.
use hyper_share.Prelude.{
  ℕ, ◌+◌, ◌-◌, ◌<◌, ◌^◌, ◌≡◌, refl, subst, Bool, true, false, [], ◌∷◌, ◌++◌, Option, none, some,
  ltb, if◌then◌else◌, length, take, drop, arith, append_assoc, take-length-append,
  drop-length-append, length-append, le→ltb,
}
use hyper_share.Wire.{
  Bytes, Error, Reader, ok, err, ◌>>=◌, return, write_size, write_bytes, read_bytes, read_uint32,
}
use hyper_share.Wire.Laws.{Reads, Reads-bind, Reads-last, Reads-return, Reads-bytes, Reads-size}

-- `AEAD_TAG_SIZE` and `CHACHA20_NONCE_SIZE`
abbrev pub tag_size : ℕ
tag_size = 16

abbrev pub nonce_size : ℕ
nonce_size = 12

pub record EncryptedMessage : Type 0 where
  pub nonce : Bytes
  pub ciphertext : Bytes
  pub tag : Bytes

unfoldable pub serialize : EncryptedMessage → Bytes
serialize msg =
    write_bytes msg.nonce
    ++ (write_size (length msg.ciphertext) ++ (write_bytes msg.ciphertext ++ write_bytes msg.tag))

-- The ciphertext and the tag, behind one test of the size.
unfoldable pub read_sealed : ℕ → Reader (Bytes × Bytes)
read_sealed size data_span =
    if ltb (length data_span) (size + tag_size)
    then err Error.encrypted_message
    else ok (
      (take size data_span, take tag_size (drop size data_span)),
      drop tag_size (drop size data_span),
    )

unfoldable pub read : Reader EncryptedMessage
read = do
  nonce ← read_bytes Error.array nonce_size
  ciphertext_size ← read_uint32
  parts ← read_sealed ciphertext_size
  return (record { nonce = nonce; ciphertext = parts.0; tag = parts.1 })

pub record IsValid (msg : EncryptedMessage) : Type 0 where
  pub nonce_range : length msg.nonce ≡ 12
  pub ciphertext_range : length msg.ciphertext < 2 ^ 32
  pub tag_range : length msg.tag ≡ 16

Reads-sealed :
    (c t : Bytes)
    → length t ≡ 16
    → Reads (read_sealed (length c)) (write_bytes c ++ write_bytes t) (c, t)
unfolding read_sealed write_bytes
Reads-sealed c t h = record {
  reads = λ rest.
      let room : ltb (length (c ++ (t ++ rest))) (length c + 16) ≡ false =
        le→ltb _ _ (omega (arith, length-append c (t ++ rest), length-append t rest, h)) in
      let front = take-length-append t rest in
      let back = drop-length-append t rest in
      rw (append_assoc, room, take-length-append, drop-length-append, rw h at front, rw h at back)
        refl;
}

pub read-serialize : (msg : EncryptedMessage) → IsValid msg → Reads read (serialize msg) msg
unfolding read serialize
read-serialize msg v =
    let nonce : Reads (read_bytes Error.array 12) (write_bytes msg.nonce) msg.nonce =
      subst (λ n. Reads (read_bytes Error.array n) (write_bytes msg.nonce) msg.nonce) v.nonce_range
        (Reads-bytes Error.array msg.nonce) in
    Reads-bind _ _ _ _ _ _ nonce (
      Reads-bind _ _ _ _ _ _ (Reads-size (length msg.ciphertext) v.ciphertext_range)
        (Reads-last _ _ _ _ _ (Reads-sealed msg.ciphertext msg.tag v.tag_range) (Reads-return msg)))

-- `crypto_aead_chacha20poly1305_ietf_encrypt` and `_decrypt`; the one takes a plaintext, the other a
-- ciphertext with its tag behind it.
pub record Aead : Type 0 where
  pub encrypt : (plaintext additional_data nonce key : Bytes) → Option Bytes
  pub decrypt : (combined additional_data nonce key : Bytes) → Option Bytes

-- What the documentation of libsodium says: the output is longer by the tag, and is opened again with
-- the same data, nonce and key.
pub record IsAead (a : Aead) : Type 0 where
  pub encrypt_length : (p d n k c : Bytes) → a.encrypt p d n k ≡ some c → length c ≡ length p + 16
  pub encrypt_opens : (p d n k c : Bytes) → a.encrypt p d n k ≡ some c → a.decrypt c d n k ≡ some p

-- The last one stands for the `std::runtime_error` of `get_identity_keys`, which passes through.
pub data CryptoError : Type 0 where
  invalid_key encryption_failed decryption_failed invalid_state verification_failed : CryptoError
  no_identity_keys : CryptoError

pub data CryptoResult (A : Type 0) : Type 0 where
  success : A → CryptoResult A
  failure : CryptoError → CryptoResult A

-- The output of the cipher without and with its last bytes.
abbrev pub split_tag : (nonce : Bytes) → Option Bytes → CryptoResult EncryptedMessage
split_tag nonce none = failure encryption_failed
split_tag nonce (some output) =
    if ltb (length output) tag_size
    then failure encryption_failed
    else success (record {
      nonce = nonce;
      ciphertext = take (length output - tag_size) output;
      tag = drop (length output - tag_size) output;
    })

-- `plaintext.empty()`
abbrev pub is_empty : Bytes → Bool
is_empty [] = true
is_empty (x ∷ xs) = false

unfoldable pub encrypt :
    Aead → (plaintext additional_data key nonce : Bytes) → CryptoResult EncryptedMessage
encrypt a plaintext additional_data key nonce =
    if is_empty plaintext
    then failure invalid_key
    else split_tag nonce (a.encrypt plaintext additional_data nonce key)

abbrev pub opened : Option Bytes → CryptoResult Bytes
opened none = failure decryption_failed
opened (some plaintext) = success plaintext

unfoldable pub decrypt :
    Aead → EncryptedMessage → (additional_data key : Bytes) → CryptoResult Bytes
decrypt a encrypted additional_data key =
    if is_empty encrypted.ciphertext
    then failure invalid_key
    else opened
        (a.decrypt (encrypted.ciphertext ++ encrypted.tag) additional_data encrypted.nonce key)

-- With `Blake3Hasher::hash` as an argument.
unfoldable pub derive_key_from_secret :
    (hash : Bytes → Bytes) → (shared_secret context : Bytes) → Bytes
derive_key_from_secret hash shared_secret context = take 32 (hash (shared_secret ++ context))
