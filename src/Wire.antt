-- ===== src/Wire.antt =====
-- Reading and writing of big-endian fields, the helpers at the top of src/network/protocol.cpp. A
-- byte buffer is a list of numbers below 256. A writer returns the bytes that it appends to its buffer. A reader takes the span that
-- is left and returns a value with the rest of the span, or the exception that it throws.
pub mod Laws
pub mod Prefix
pub mod Widths
pub mod Little
use hyper_share.Prelude.{
  ℕ, zero, suc, ◌+◌, ◌*◌, ◌/◌, ◌%◌, ◌^◌, ◌<◌, List, [], ◌∷◌, ◌++◌, length, take, drop, ltb,
  if◌then◌else◌, All,
}

abbrev pub Bytes : Type 0
Bytes = List ℕ

-- The `std::runtime_error`s, by what they say is missing or wrong.
pub data Error : Type 0 where
  uint8 uint16 uint32 uint64 string : Error
  message_header chunk hop_count port peer_hop_count array encrypted_payload encrypted_message :
      Error
  invalid_header message_payload checksum_failed : Error

pub data Result {ℓ} (A : Type ℓ) : Type ℓ where
  ok : A → Result A
  err : Error → Result A

abbrev pub Reader : Type 0 → Type 0
Reader A = Bytes → Result (A × Bytes)

-- Shut, so that the laws can be matched against a `do` block.
infixl 5 ◌>>=◌
unfoldable pub ◌>>=◌ : {A B : Type 0} → Reader A → (A → Reader B) → Reader B
◌>>=◌ m f s = elim (m s) [ ok (a, s') ↦ f a s' | err e ↦ err e ]

unfoldable pub return : {A : Type 0} → A → Reader A
return a s = ok (a, s)

-- `deserialize` runs its reads on a copy of the span and drops what is left.
abbrev pub run : {A : Type 0} → Reader A → Bytes → Result A
run m s = elim (m s) [ ok (a, s') ↦ ok a | err e ↦ err e ]

-- `(value >> shift) & 0xFF`
abbrev pub byte_at : ℕ → ℕ → ℕ
byte_at value shift = value / 2 ^ shift % 256

unfoldable pub write_uint8 : ℕ → Bytes
write_uint8 value = value % 256 ∷ []

unfoldable pub write_uint16 : ℕ → Bytes
write_uint16 value = byte_at value 8 ∷ byte_at value 0 ∷ []

unfoldable pub write_uint32 : ℕ → Bytes
write_uint32 value = byte_at value 24 ∷ byte_at value 16 ∷ byte_at value 8 ∷ byte_at value 0 ∷ []

pub write_uint64 : ℕ → Bytes
write_uint64 value =
    byte_at value 56
    ∷ byte_at value 48
    ∷ byte_at value 40
    ∷ byte_at value 32
    ∷ byte_at value 24
    ∷ byte_at value 16
    ∷ byte_at value 8
    ∷ byte_at value 0
    ∷ []

-- `write_uint32(buffer, static_cast<std::uint32_t>(size))`
unfoldable pub write_size : ℕ → Bytes
write_size size = write_uint32 (size % 2 ^ 32)

-- `buffer.insert(buffer.end(), xs.begin(), xs.end())`
unfoldable pub write_bytes : Bytes → Bytes
write_bytes xs = xs

-- The length is cast to 32 bits; all of the bytes are appended.
unfoldable pub write_string : Bytes → Bytes
write_string str = write_size (length str) ++ write_bytes str

pub read_uint8 : Reader ℕ
read_uint8 (a ∷ rest) = ok (a, rest)
read_uint8 rest = err uint8

-- The shifted bytes have no bit in common, so `|` is a sum.
pub read_uint16 : Reader ℕ
read_uint16 (a ∷ b ∷ rest) = ok (a * 2 ^ 8 + b, rest)
read_uint16 rest = err uint16

pub read_uint32 : Reader ℕ
read_uint32 (a ∷ b ∷ c ∷ d ∷ rest) = ok (a * 2 ^ 24 + b * 2 ^ 16 + c * 2 ^ 8 + d, rest)
read_uint32 rest = err uint32

pub read_uint64 : Reader ℕ
read_uint64 (a ∷ b ∷ c ∷ d ∷ e ∷ f ∷ g ∷ h ∷ rest) = ok (
  a * 2 ^ 56 + b * 2 ^ 48 + c * 2 ^ 40 + d * 2 ^ 32 + e * 2 ^ 24 + f * 2 ^ 16 + g * 2 ^ 8 + h,
  rest,
)
read_uint64 rest = err uint64

-- The next `n` bytes, and `e` if the span is shorter.
pub read_bytes : Error → ℕ → Reader Bytes
read_bytes e n data_span =
    if ltb (length data_span) n then err e else ok (take n data_span, drop n data_span)

pub read_string : Reader Bytes
read_string = do n ← read_uint32; read_bytes string n

-- `for (i = 0; i < count; ++i) result.push_back(read(span))`
unfoldable pub read_count : {A : Type 0} → ℕ → Reader A → Reader (List A)
read_count zero m = return []
read_count (suc count) m = do x ← m; xs ← read_count count m; return (x ∷ xs)

-- `for (const auto& x : xs) write(buffer, x)`
pub write_all {ℓ} : {A : Type ℓ} → (A → Bytes) → List A → Bytes
write_all w [] = []
write_all w (x ∷ xs) = w x ++ write_all w xs
