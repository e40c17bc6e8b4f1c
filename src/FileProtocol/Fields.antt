-- ===== src/FileProtocol/Fields.antt =====
-- The fields of src/network/file_protocol.cpp, as they lie in the memory of a little-endian machine. A read
-- that lacks bytes does not fail: it gives 0 or the empty string, and takes no bytes, or those of
-- the size alone.
use hyper_share.Prelude.{
  take-length, ℕ, ◌+◌, ◌*◌, ◌%◌, ◌^◌, ◌<◌, ◌≡◌, refl, Bool, true, false, not, List, [], ◌∷◌, ◌++◌,
  length, take, drop, ltb, ◌==◌, if◌then◌else◌, arith, All, length-append, take-length-append,
  drop-length-append, le→ltb, ◌∙◌,
}
use hyper_share.Wire.{Bytes, Reader, ok, ◌>>=◌, read_count, write_all}
use hyper_share.Wire.Laws.{Reads, Reads-bind, Reads-count}
use hyper_share.Wire.Little.{write_uint32, write_uint64, write_size}

unfoldable pub read_uint32 : Reader ℕ
read_uint32 (a ∷ b ∷ c ∷ d ∷ rest) = ok (a + b * 2 ^ 8 + c * 2 ^ 16 + d * 2 ^ 24, rest)
read_uint32 rest = ok (0, rest)

unfoldable pub read_uint64 : Reader ℕ
read_uint64 (a ∷ b ∷ c ∷ d ∷ e ∷ f ∷ g ∷ h ∷ rest) = ok (
  a + b * 2 ^ 8 + c * 2 ^ 16 + d * 2 ^ 24 + e * 2 ^ 32 + f * 2 ^ 40 + g * 2 ^ 48 + h * 2 ^ 56,
  rest,
)
read_uint64 rest = ok (0, rest)

-- A `bool` is written as the byte 0 or 1.
unfoldable pub write_bool : Bool → Bytes
write_bool true = 1 ∷ []
write_bool false = 0 ∷ []

unfoldable pub read_bool : Reader Bool
read_bool (a ∷ rest) = ok (not (a == 0), rest)
read_bool [] = ok (false, [])

-- `read_vector_bytes` after the size, and the end of `read_string`.
unfoldable pub read_bytes : ℕ → Reader Bytes
read_bytes size s = if ltb (length s) size then ok ([], s) else ok (take size s, drop size s)

-- The size is cast to 32 bits, and as many bytes are written.
unfoldable pub write_string : Bytes → Bytes
write_string str = write_size (length str) ++ take (length str % 2 ^ 32) str

unfoldable pub read_string : Reader Bytes
read_string (a ∷ b ∷ c ∷ d ∷ rest) = read_bytes (a + b * 2 ^ 8 + c * 2 ^ 16 + d * 2 ^ 24) rest
read_string rest = ok ([], rest)

unfoldable pub write_vector_bytes : Bytes → Bytes
write_vector_bytes vec = write_size (length vec) ++ take (length vec % 2 ^ 32) vec

unfoldable pub read_vector_bytes : Reader Bytes
read_vector_bytes = do size ← read_uint32; read_bytes size

unfoldable pub write_vector_strings : List Bytes → Bytes
write_vector_strings vec = write_size (length vec) ++ write_all write_string vec

unfoldable pub read_vector_strings : Reader (List Bytes)
read_vector_strings = do count ← read_uint32; read_count count read_string

pub Reads-uint32 : (v : ℕ) → v < 2 ^ 32 → Reads read_uint32 (write_uint32 v) v
unfolding read_uint32 write_uint32
Reads-uint32 v h = record { reads = λ rest. ground arith }

pub Reads-uint64 : (v : ℕ) → v < 2 ^ 64 → Reads read_uint64 (write_uint64 v) v
unfolding read_uint64 write_uint64
Reads-uint64 v h = record { reads = λ rest. ground arith }

pub Reads-bool : (v : Bool) → Reads read_bool (write_bool v) v
unfolding read_bool write_bool
Reads-bool true = record { reads = λ rest. refl }
Reads-bool false = record { reads = λ rest. refl }

Reads-size : (n : ℕ) → n < 2 ^ 32 → Reads read_uint32 (write_size n) n
unfolding write_size
Reads-size n h = let e : n % 2 ^ 32 ≡ n = omega arith in rw e (Reads-uint32 n h)

-- All the bytes of a string that is not too long.
Reads-bytes :
    (s : Bytes) → length s < 2 ^ 32 → Reads (read_bytes (length s)) (take (length s % 2 ^ 32) s) s
unfolding read_bytes
Reads-bytes s h =
    let n : length s % 2 ^ 32 ≡ length s = omega arith in
    record {
      reads = λ rest.
          rw
            (
              n,
              take-length s,
              le→ltb (length (s ++ rest)) (length s) (omega (arith, length-append s rest)),
              take-length-append,
              drop-length-append,
            )
            refl;
    }

pub Reads-vector_bytes :
    (s : Bytes) → length s < 2 ^ 32 → Reads read_vector_bytes (write_vector_bytes s) s
unfolding read_vector_bytes write_vector_bytes
Reads-vector_bytes s h = Reads-bind _ _ _ _ _ _ (Reads-size (length s) h) (Reads-bytes s h)

-- `read_string` reads as `read_vector_bytes` does.
read_string_lem : (s : Bytes) → read_string s ≡ read_vector_bytes s
unfolding read_string read_vector_bytes read_uint32 ◌>>=◌ read_bytes take drop
read_string_lem [] = refl
read_string_lem (a ∷ []) = refl
read_string_lem (a ∷ b ∷ []) = refl
read_string_lem (a ∷ b ∷ c ∷ []) = refl
read_string_lem (a ∷ b ∷ c ∷ d ∷ rest) = refl

pub Reads-string : (s : Bytes) → length s < 2 ^ 32 → Reads read_string (write_string s) s
unfolding write_string write_vector_bytes
Reads-string s h =
    let bytes = Reads-vector_bytes s h in
    record { reads = λ rest. read_string_lem _ ∙ bytes.reads rest }

Reads-strings :
    (xs : List Bytes)
    → All (λ x. length x < 2 ^ 32) xs
    → Reads (read_count (length xs) read_string) (write_all write_string xs) xs
Reads-strings = Reads-count (λ x. length x < 2 ^ 32) read_string write_string Reads-string

pub Reads-vector_strings :
    (xs : List Bytes)
    → length xs < 2 ^ 32
    → All (λ x. length x < 2 ^ 32) xs
    → Reads read_vector_strings (write_vector_strings xs) xs
unfolding read_vector_strings write_vector_strings
Reads-vector_strings xs h each =
    Reads-bind _ _ _ _ _ _ (Reads-size (length xs) h) (Reads-strings xs each)
