-- ===== src/Crypto/Runs.antt =====
-- Runs of the nonce manager and of a secure message.
use hyper_share.Prelude.{
  some_injective, ℕ, ◌+◌, ◌-◌, ◌<◌, ◌^◌, ◌≡◌, refl, sym, ap, ◌∙◌, true, [], ◌∷◌, ◌++◌, arith, List,
  some, take, drop, length, length-append, take-length-append,
}
use hyper_share.Wire.{Bytes, ok}
use hyper_share.Crypto.Encryption.{EncryptedMessage, Aead, IsAead, success, encrypt, decrypt}
use hyper_share.Crypto.SecureMessage.{
  SecureMessage, serialize, deserialize, create_aad, verify_message_integrity,
}
use hyper_share.Crypto.SecureMessage.Sealing.{deserialize-serialize_secure}
use hyper_share.Crypto.Nonces.{new_nonce_manager, verify_incoming_nonce, nonce_to_uint64}
use hyper_share.Crypto.Nonces.Window.{accepts}
use hyper_share.Crypto.Nonces.Replay.{
  IsDistinct, after, verify_all, no_logs, verify_all-IsDistinct, verify_incoming_nonce-accepts,
}

abbrev first : Bytes
first = 1 ∷ 0 ∷ 0 ∷ 0 ∷ 0 ∷ 0 ∷ 0 ∷ 0 ∷ 9 ∷ 9 ∷ 9 ∷ 9 ∷ []

abbrev second : Bytes
second = 2 ∷ 0 ∷ 0 ∷ 0 ∷ 0 ∷ 0 ∷ 0 ∷ 0 ∷ 9 ∷ 9 ∷ 9 ∷ 9 ∷ []

-- The second nonce, the first, and the second again.
abbrev arrivals : List (Bytes × ℕ)
arrivals = (second, 5) ∷ (first, 5) ∷ (second, 5) ∷ []

verify_all-IsDistinct_example : IsDistinct ((verify_all arrivals (new_nonce_manager, no_logs)).1 5)
verify_all-IsDistinct_example = verify_all-IsDistinct arrivals 5

in_range : nonce_to_uint64 second + 3 < 2 ^ 64
unfolding nonce_to_uint64
in_range = omega arith

verify_incoming_nonce-accepts_example :
    (verify_incoming_nonce second 5 (after 3 arrivals).0).1
    ≡ accepts 3 (nonce_to_uint64 second) ((after 3 arrivals).1 5)
verify_incoming_nonce-accepts_example = verify_incoming_nonce-accepts 3 arrivals second 5 in_range

-- A cipher that appends an empty tag.
abbrev no_tag : Bytes
no_tag = 0 ∷ 0 ∷ 0 ∷ 0 ∷ 0 ∷ 0 ∷ 0 ∷ 0 ∷ 0 ∷ 0 ∷ 0 ∷ 0 ∷ 0 ∷ 0 ∷ 0 ∷ 0 ∷ []

abbrev open_cipher : Aead
open_cipher = record {
  encrypt = λ p d n k. some (p ++ no_tag);
  decrypt = λ c d n k. some (take (length c - 16) c);
}

take_front : (p : Bytes) → take (length (p ++ no_tag) - 16) (p ++ no_tag) ≡ p
take_front p =
    let size : length (p ++ no_tag) - 16 ≡ length p = omega (arith, length-append p no_tag) in
    rw size (take-length-append p no_tag)

open_cipher-IsAead : IsAead open_cipher
open_cipher-IsAead = record {
  encrypt_length = λ p d n k c h. ap length (sym (some_injective h)) ∙ length-append p no_tag;
  encrypt_opens = λ p d n k c h. rw (sym (some_injective h)) (ap some (take_front p));
}

abbrev hello : Bytes
hello = b'h' ∷ b'i' ∷ []

abbrev sealed_hello : EncryptedMessage
sealed_hello = record { nonce = first; ciphertext = hello; tag = no_tag }

seals_hello : encrypt open_cipher hello (create_aad 36 5) [] first ≡ success sealed_hello
unfolding encrypt take drop
seals_hello = refl

abbrev secure_hello : SecureMessage
secure_hello = record { original_type = 36; sequence_number = 5; encrypted_payload = sealed_hello }

deserialize-serialize_secure_example :
    (deserialize (serialize secure_hello ++ 1 ∷ []) ≡ ok secure_hello)
    × (verify_message_integrity open_cipher secure_hello [] ≡ true)
    × (decrypt open_cipher sealed_hello (create_aad 36 5) [] ≡ success hello)
deserialize-serialize_secure_example =
    deserialize-serialize_secure open_cipher hello [] first (1 ∷ []) 36 5 sealed_hello
      open_cipher-IsAead refl (omega arith) (omega arith) (omega arith) seals_hello
