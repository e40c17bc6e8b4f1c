-- ===== src/Crypto/Handshake/Arrays.antt =====
-- `std::array` fields of src/crypto/secure_handshake.cpp: bytes of a fixed number.
use hyper_share.Prelude.{ℕ, ◌≡◌, subst, length}
use hyper_share.Wire.{Bytes, Error, Reader, write_bytes, read_bytes}
use hyper_share.Wire.Laws.{Reads, Reads-bytes}

-- `ED25519_PUBLIC_KEY_SIZE`, `X25519_PUBLIC_KEY_SIZE` and `ED25519_SIGNATURE_SIZE`
abbrev pub key_size : ℕ
key_size = 32

abbrev pub signature_size : ℕ
signature_size = 64

abbrev pub read_array : ℕ → Reader Bytes
read_array n = read_bytes Error.array n

pub Reads-array : (n : ℕ) (xs : Bytes) → length xs ≡ n → Reads (read_array n) (write_bytes xs) xs
Reads-array n xs h =
    subst (λ k. Reads (read_array k) (write_bytes xs) xs) h (Reads-bytes Error.array xs)
