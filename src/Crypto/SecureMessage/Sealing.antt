-- ===== src/Crypto/SecureMessage/Sealing.antt =====
-- A message that is encrypted, sent and read back is opened: src/network/secure_message.cpp over
-- src/crypto/encryption.cpp.
use hyper_share.Prelude.{
  take-drop, ℕ, ◌+◌, ◌-◌, ◌<◌, ◌≤◌, ◌^◌, ◌≡◌, refl, ap, sym, ◌∙◌, true, false, [], ◌∷◌, ◌++◌, some,
  length, take, drop, arith, length-append, length-take, length-drop, inl, inr, Bool-cases,
  Option-cases, append-nil,
}
use hyper_share.Wire.{
  Bytes, Error, Reader, ok, ◌>>=◌, return, read_uint8, read_uint64, run, write_uint8, write_size,
  write_uint32, write_bytes,
}
use hyper_share.Wire.Laws.{
  Reads, Reads-bind, Reads-last, Reads-return, Reads-bytes, Reads-size, Reads-uint8, Reads-uint64,
  run-Reads,
}
use hyper_share.Crypto.Encryption.{
  EncryptedMessage, Aead, IsAead, CryptoResult, success, failure, encrypt, decrypt, is_empty,
  split_tag, opened, IsValid,
}
use hyper_share.Crypto.Encryption as Encryption
use hyper_share.Crypto.SecureMessage.{
  SecureMessage, serialize, read_payload, behind, read, deserialize, create_aad,
  verify_message_integrity,
}

abbrev split : (nonce output : Bytes) → EncryptedMessage
split nonce output = record {
  nonce = nonce;
  ciphertext = take (length output - 16) output;
  tag = drop (length output - 16) output;
}

-- A successful call of `encrypt` splits what the cipher gives.
encrypt_split :
    (a : Aead) (p d k n : Bytes) (m : EncryptedMessage)
    → encrypt a p d k n ≡ success m
    → (c : Bytes) × (a.encrypt p d n k ≡ some c) × (m ≡ split n c) × (is_empty p ≡ false)
unfolding encrypt
encrypt_split a p d k n m h = elim (Bool-cases (is_empty p)) [
  | inl none_left ↦ ground (arith, none_left, h)
  | inr some_left ↦ elim (Option-cases (a.encrypt p d n k)) [
    | inl fails ↦ ground (arith, some_left, fails, h)
    | inr (c, gives) ↦ (c, gives, ground (arith, some_left, gives, h), some_left)
  ]
]

length_pos : (p : Bytes) → is_empty p ≡ false → 1 ≤ length p
length_pos [] h = cc
length_pos (x ∷ xs) h = omega arith

not_empty : (p : Bytes) → 1 ≤ length p → is_empty p ≡ false
not_empty [] h = absurd (omega arith)
not_empty (x ∷ xs) h = refl

split-IsValid :
    (n c : Bytes) (size : ℕ)
    → length n ≡ 12
    → length c ≡ size + 16
    → size < 2 ^ 32
    → IsValid (split n c)
split-IsValid n c size hn hc h = record {
  nonce_range = hn;
  ciphertext_range = omega (arith, length-take (length c - 16) c, hc, h);
  tag_range = omega (arith, length-drop (length c - 16) c, hc);
}

decrypt-split :
    (a : Aead) (p d k n c : Bytes)
    → IsAead a
    → is_empty p ≡ false
    → a.encrypt p d n k ≡ some c
    → decrypt a (split n c) d k ≡ success p
unfolding decrypt
decrypt-split a p d k n c laws some_left gives =
    let size = laws.encrypt_length p d n k c gives in
    let filled : is_empty (take (length c - 16) c) ≡ false =
      not_empty _ (omega (arith, length-take (length c - 16) c, size, length_pos p some_left)) in
    rw (filled, take-drop (length c - 16) c, laws.encrypt_opens p d n k c gives) refl

-- The fields of a secure message are in the ranges of their types.
pub record IsSecure (msg : SecureMessage) : Type 0 where
  pub type_range : msg.original_type < 2 ^ 8
  pub sequence_number_range : msg.sequence_number < 2 ^ 64
  pub payload_valid : IsValid msg.encrypted_payload
  pub payload_range : length (Encryption.serialize msg.encrypted_payload) < 2 ^ 32

Reads-payload :
    (msg : EncryptedMessage) → IsValid msg → Reads (read_payload (Encryption.serialize msg)) [] msg
unfolding read_payload
Reads-payload msg v =
    let padded : run Encryption.read (Encryption.serialize msg ++ []) ≡ ok msg =
      run-Reads (Encryption.read-serialize msg v) [] in
    let whole : run Encryption.read (Encryption.serialize msg) ≡ ok msg = rw append-nil at padded in
    record { reads = λ rest. ap (behind rest) whole }

read-serialize_secure : (msg : SecureMessage) → IsSecure msg → Reads read (serialize msg) msg
unfolding read serialize
read-serialize_secure msg v = Reads-bind _ _ _ _ _ _ (Reads-uint8 msg.original_type v.type_range) (
    Reads-bind _ _ _ _ _ _ (Reads-uint64 msg.sequence_number v.sequence_number_range) (
      Reads-bind _ _ _ _ _ _ (Reads-size _ v.payload_range) (
        Reads-last _ _ _ _ _ (Reads-bytes Error.encrypted_payload _) (
          Reads-last _ _ _ _ _ (Reads-payload msg.encrypted_payload v.payload_valid)
            (Reads-return msg)))))

length-serialize_encrypted :
    (msg : EncryptedMessage)
    → length (Encryption.serialize msg)
      ≡ length msg.nonce + 4 + length msg.ciphertext + length msg.tag
unfolding Encryption.serialize write_bytes write_size write_uint32
length-serialize_encrypted msg = omega (
  arith,
  length-append msg.nonce (write_size (length msg.ciphertext) ++ (msg.ciphertext ++ msg.tag)),
  length-append msg.ciphertext msg.tag,
)

-- What is encrypted with the data that belong to a type and a sequence number, sent and read back,
-- is the message that was sent, passes the test of its integrity and is opened to the plaintext, if
-- the cipher keeps what its documentation says and the sizes are in range.
pub deserialize-serialize_secure :
    (a : Aead) (plaintext key nonce rest : Bytes) (type sequence_number : ℕ)
    (sealed : EncryptedMessage)
    → IsAead a
    → length nonce ≡ 12
    → length plaintext + 32 < 2 ^ 32
    → type < 2 ^ 8
    → sequence_number < 2 ^ 64
    → encrypt a plaintext (create_aad type sequence_number) key nonce ≡ success sealed
    → (let msg : SecureMessage = record {
      original_type = type;
      sequence_number = sequence_number;
      encrypted_payload = sealed;
    } in
        (deserialize (serialize msg ++ rest) ≡ ok msg)
        × (verify_message_integrity a msg key ≡ true)
        × (decrypt a sealed (create_aad type sequence_number) key ≡ success plaintext))
unfolding deserialize verify_message_integrity
deserialize-serialize_secure a p k n rest t q m laws hn hp ht hq h =
    let (c, gives, is_split, some_left) = encrypt_split a p (create_aad t q) k n m h in
    let size = laws.encrypt_length p (create_aad t q) n k c gives in
    let valid : IsValid m = rw is_split (split-IsValid n c (length p) hn size (omega arith)) in
    let opens : decrypt a m (create_aad t q) k ≡ success p =
      rw is_split (decrypt-split a p (create_aad t q) k n c laws some_left gives) in
    let ciphertext : length m.ciphertext ≡ length p =
      rw is_split (omega (arith, length-take (length c - 16) c, size)) in
    let short : length (Encryption.serialize m) < 2 ^ 32 =
      omega
        (arith, length-serialize_encrypted m, ciphertext, valid.nonce_range, valid.tag_range, hp) in
    (
      run-Reads
          (read-serialize_secure _ (record {
            type_range = ht;
            sequence_number_range = hq;
            payload_valid = valid;
            payload_range = short;
          }))
          rest,
      rw opens refl,
      opens,
    )

read_aad : Reader (ℕ × ℕ)
read_aad = do t ← read_uint8; q ← read_uint64; return (t, q)

read_aad-create_aad : (t q : ℕ) → t < 2 ^ 8 → q < 2 ^ 64 → run read_aad (create_aad t q) ≡ ok (t, q)
unfolding create_aad read_aad ◌>>=◌ write_uint8
read_aad-create_aad t q ht hq =
    run-Reads
      (Reads-bind _ _ _ _ _ _ (Reads-uint8 t ht)
        (Reads-last _ _ _ _ _ (Reads-uint64 q hq) (Reads-return (t, q))))
      _

-- The additional data of two messages agree only if their types and their sequence numbers do.
pub create_aad_injective :
    (t t' q q' : ℕ)
    → t < 2 ^ 8
    → t' < 2 ^ 8
    → q < 2 ^ 64
    → q' < 2 ^ 64
    → create_aad t q ≡ create_aad t' q'
    → (t ≡ t') × (q ≡ q')
create_aad_injective t t' q q' ht ht' hq hq' h =
    let back = read_aad-create_aad t q ht hq in
    let back' = read_aad-create_aad t' q' ht' hq' in
    let same : run read_aad (create_aad t q) ≡ run read_aad (create_aad t' q') =
      ap (run read_aad) h in
    let pairs : ok (t, q) ≡ ok (t', q') = sym back ∙ (same ∙ back') in ground (arith, pairs)
