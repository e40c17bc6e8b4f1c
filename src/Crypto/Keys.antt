-- ===== src/Crypto/Keys.antt =====
-- The derivation of session keys, `KeyManager` of src/crypto/key_manager.cpp, and the calls of
-- src/crypto/signature.cpp. The functions of libsodium are an interface.
use hyper_share.Prelude.{Bool, [], ◌∷◌, ◌++◌, Option, none, some, take, if◌then◌else◌}
use hyper_share.Wire.{Bytes}
use hyper_share.Crypto.Encryption.{
  CryptoResult, success, failure, invalid_key, encryption_failed, verification_failed, is_empty,
}

-- HMAC-SHA256, `crypto_box_beforenm`, `crypto_sign_detached` and `crypto_sign_verify_detached`
pub record Sodium : Type 0 where
  pub hmac : (key message : Bytes) → Bytes
  pub exchange : (their_public our_secret : Bytes) → Bytes
  pub sign : (message secret_key : Bytes) → Option Bytes
  pub verify : (message signature public_key : Bytes) → Bool

pub record KeyPair : Type 0 where
  pub public_key : Bytes
  pub secret_key : Bytes

-- The counter and the time of a new key, which are always 0 and now, are left out.
pub record SessionKeys : Type 0 where
  pub encryption_key : Bytes
  pub mac_key : Bytes

-- Extract and one round of expand, cut to the 32 bytes of a key.
unfoldable pub hkdf_blake3 : Sodium → (input_key_material salt info : Bytes) → Bytes
hkdf_blake3 c input_key_material salt info =
    take 32 (c.hmac (c.hmac salt input_key_material) (info ++ 1 ∷ []))

-- "hypershare_encrypt" and "hypershare_mac"
abbrev pub encrypt_salt : Bytes
encrypt_salt =
    b'h' ∷ b'y' ∷ b'p' ∷ b'e' ∷ b'r' ∷ b's' ∷ b'h' ∷ b'a' ∷ b'r' ∷ b'e' ∷ b'_' ∷ b'e' ∷ b'n' ∷ b'c'
    ∷ b'r' ∷ b'y' ∷ b'p' ∷ b't' ∷ []

abbrev pub mac_salt : Bytes
mac_salt =
    b'h' ∷ b'y' ∷ b'p' ∷ b'e' ∷ b'r' ∷ b's' ∷ b'h' ∷ b'a' ∷ b'r' ∷ b'e' ∷ b'_' ∷ b'm' ∷ b'a' ∷ b'c'
    ∷ []

unfoldable pub derive_session_keys :
    Sodium → (our_secret their_public context : Bytes) → SessionKeys
derive_session_keys c our_secret their_public context =
    let shared_secret = c.exchange their_public our_secret in
    record {
      encryption_key = hkdf_blake3 c shared_secret encrypt_salt context;
      mac_key = hkdf_blake3 c shared_secret mac_salt context;
    }

abbrev pub signed : Option Bytes → CryptoResult Bytes
signed none = failure encryption_failed
signed (some signature) = success signature

unfoldable pub sign : Sodium → (message secret_key : Bytes) → CryptoResult Bytes
sign c message secret_key =
    if is_empty message then failure invalid_key else signed (c.sign message secret_key)

unfoldable pub verify : Sodium → (message signature public_key : Bytes) → CryptoResult Unit
verify c message signature public_key =
    if is_empty message
    then failure invalid_key
    else if c.verify message signature public_key
    then success tt
    else failure verification_failed
