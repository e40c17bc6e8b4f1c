-- ===== src/Wire/Little.antt =====
-- The little-endian fields of src/network/peer_router.cpp and of src/storage/file_metadata.cpp, which
-- copies its numbers as they lie in memory; the machine is taken to be little-endian.
use hyper_share.Prelude.{
  ℕ, ◌+◌, ◌*◌, ◌/◌, ◌%◌, ◌^◌, ◌<◌, ◌≡◌, List, [], ◌∷◌, ◌++◌, length, arith, All,
}
use hyper_share.Wire.{
  Bytes, Error, Reader, ok, err, ◌>>=◌, return, byte_at, write_bytes, read_bytes, read_count,
  write_all,
}
use hyper_share.Wire.Laws.{
  Reads, Reads-bind, Reads-last, Reads-return, Reads-bytes, Reads-count, Reads-uint8, Reads-uint16,
  Reads-uint64,
}
use hyper_share.Wire.Prefix.{
  Extends, Extends-bind, Extends-return, Extends-bytes, Extends-count, Extends-uint8,
  Extends-uint16,
}

unfoldable pub write_uint32 : ℕ → Bytes
write_uint32 value = byte_at value 0 ∷ byte_at value 8 ∷ byte_at value 16 ∷ byte_at value 24 ∷ []

pub read_uint32 : Reader ℕ
read_uint32 (a ∷ b ∷ c ∷ d ∷ rest) = ok (a + b * 2 ^ 8 + c * 2 ^ 16 + d * 2 ^ 24, rest)
read_uint32 rest = err Error.uint32

unfoldable pub write_uint64 : ℕ → Bytes
write_uint64 value =
    byte_at value 0
    ∷ byte_at value 8
    ∷ byte_at value 16
    ∷ byte_at value 24
    ∷ byte_at value 32
    ∷ byte_at value 40
    ∷ byte_at value 48
    ∷ byte_at value 56
    ∷ []

pub read_uint64 : Reader ℕ
read_uint64 (a ∷ b ∷ c ∷ d ∷ e ∷ f ∷ g ∷ h ∷ rest) = ok (
  a + b * 2 ^ 8 + c * 2 ^ 16 + d * 2 ^ 24 + e * 2 ^ 32 + f * 2 ^ 40 + g * 2 ^ 48 + h * 2 ^ 56,
  rest,
)
read_uint64 rest = err Error.uint64

unfoldable pub write_size : ℕ → Bytes
write_size size = write_uint32 (size % 2 ^ 32)

unfoldable pub write_string : Bytes → Bytes
write_string str = write_size (length str) ++ write_bytes str

pub read_string : Reader Bytes
read_string = do n ← read_uint32; read_bytes Error.string n

-- A 64-bit number as its high and its low half.
pub write_halves : ℕ → Bytes
write_halves value = write_uint32 (value / 2 ^ 32 % 2 ^ 32) ++ write_uint32 (value % 2 ^ 32)

pub read_halves : Reader ℕ
read_halves = do
  high_half ← read_uint32
  low_half ← read_uint32
  return (high_half * 2 ^ 32 + low_half)

pub Reads-uint32 : (v : ℕ) → v < 2 ^ 32 → Reads read_uint32 (write_uint32 v) v
unfolding read_uint32 write_uint32
Reads-uint32 v h = record { reads = λ rest. ground arith }

pub Reads-little64 : (v : ℕ) → v < 2 ^ 64 → Reads read_uint64 (write_uint64 v) v
unfolding read_uint64 write_uint64
Reads-little64 v h = record { reads = λ rest. ground arith }

pub Reads-size : (n : ℕ) → n < 2 ^ 32 → Reads read_uint32 (write_size n) n
unfolding write_size
Reads-size n h = let e : n % 2 ^ 32 ≡ n = omega arith in rw e (Reads-uint32 n h)

pub Reads-string : (s : Bytes) → length s < 2 ^ 32 → Reads read_string (write_string s) s
unfolding read_string write_string
Reads-string s h = Reads-bind _ _ _ _ _ _ (Reads-size _ h) (Reads-bytes Error.string s)

pub Reads-halves : (v : ℕ) → v < 2 ^ 64 → Reads read_halves (write_halves v) v
unfolding read_halves write_halves
Reads-halves v h =
    let whole : v / 2 ^ 32 % 2 ^ 32 * 2 ^ 32 + v % 2 ^ 32 ≡ v = omega arith in
    Reads-bind _ _ _ _ _ _ (Reads-uint32 (v / 2 ^ 32 % 2 ^ 32) (omega arith))
      (Reads-last _ _ _ _ _ (Reads-uint32 (v % 2 ^ 32) (omega arith)) (rw whole (Reads-return v)))

pub Reads-strings :
    (xs : List Bytes)
    → All (λ x. length x < 2 ^ 32) xs
    → Reads (read_count (length xs) read_string) (write_all write_string xs) xs
Reads-strings = Reads-count (λ x. length x < 2 ^ 32) read_string write_string Reads-string

pub Reads-numbers :
    (xs : List ℕ)
    → All (λ x. x < 2 ^ 32) xs
    → Reads (read_count (length xs) read_uint32) (write_all write_uint32 xs) xs
Reads-numbers = Reads-count (λ x. x < 2 ^ 32) read_uint32 write_uint32 Reads-uint32

pub ruleset little_fields = (
  Reads-bind, Reads-last, Reads-return, Reads-uint8, Reads-uint16, Reads-uint32, Reads-little64,
  Reads-string, Reads-size, Reads-halves, Reads-strings, Reads-numbers,
)

pub Extends-uint32 : Extends read_uint32
unfolding read_uint32
Extends-uint32 = record { extends = λ s t s' b h. ground arith }

pub Extends-little64 : Extends read_uint64
unfolding read_uint64
Extends-little64 = record { extends = λ s t s' b h. ground arith }

pub Extends-string : Extends read_string
unfolding read_string
Extends-string = Extends-bind _ _ Extends-uint32 (Extends-bytes Error.string)

pub Extends-halves : Extends read_halves
unfolding read_halves
Extends-halves =
    Extends-bind _ _ Extends-uint32 λ a. Extends-bind _ _ Extends-uint32 λ b. Extends-return _

pub ruleset little_prefixes = (
  Extends-bind, Extends-return, Extends-uint8, Extends-uint16, Extends-uint32, Extends-little64,
  Extends-string, Extends-halves, Extends-bytes, Extends-count,
)
