-- ===== src/Wire/Laws.antt =====
-- Composable laws of the readers and writers: `Reads m bs a` says that `m` turns the bytes `bs`,
-- with anything behind them, into `a`. One rule for each field and one for `>>=` let `search`
-- walk the `do` block of a message.
use hyper_share.Prelude.{
  map, ℕ, ◌%◌, ◌^◌, ◌<◌, ◌≡◌, refl, List, [], ◌∷◌, ◌++◌, append_assoc, length, arith, length-append,
  take-length-append, drop-length-append, le→ltb, All,
}
use hyper_share.Wire.{
  Bytes, Error, Reader, ok, ◌>>=◌, return, run, read_count, write_all, write_uint8, write_uint16,
  write_uint32, write_uint64, write_size, write_bytes, write_string, read_uint8, read_uint16,
  read_uint32, read_uint64, read_bytes, read_string,
}

pub record Reads {A : Type 0} (m : Reader A) (bs : Bytes) (a : A) : Type 0 where
  pub reads : (rest : Bytes) → m (bs ++ rest) ≡ ok (a, rest)

module _ {A B : Type 0} where
  pub Reads-bind :
      (m : Reader A) (f : A → Reader B) (bs cs : Bytes) (a : A) (b : B)
      → Reads m bs a
      → Reads (f a) cs b
      → Reads (m >>= f) (bs ++ cs) b
  unfolding ◌>>=◌
  Reads-bind m f bs cs a b p q = record {
    reads = λ rest. rw (append_assoc, ◌>>=◌, p.reads (cs ++ rest)) (q.reads rest);
  }

  -- The last field of a message.
  pub Reads-last :
      (m : Reader A) (f : A → Reader B) (bs : Bytes) (a : A) (b : B)
      → Reads m bs a
      → Reads (f a) [] b
      → Reads (m >>= f) bs b
  unfolding ◌>>=◌
  Reads-last m f bs a b p q = record { reads = λ rest. rw (◌>>=◌, p.reads rest) (q.reads rest) }

pub Reads-return : {A : Type 0} (a : A) → Reads (return a) [] a
unfolding return
Reads-return a = record { reads = λ rest. refl }

pub Reads-uint8 : (v : ℕ) → v < 2 ^ 8 → Reads read_uint8 (write_uint8 v) v
unfolding read_uint8 write_uint8
Reads-uint8 v h = record { reads = λ rest. ground arith }

pub Reads-uint16 : (v : ℕ) → v < 2 ^ 16 → Reads read_uint16 (write_uint16 v) v
unfolding read_uint16 write_uint16
Reads-uint16 v h = record { reads = λ rest. ground arith }

pub Reads-uint32 : (v : ℕ) → v < 2 ^ 32 → Reads read_uint32 (write_uint32 v) v
unfolding read_uint32 write_uint32
Reads-uint32 v h = record { reads = λ rest. ground arith }

pub Reads-uint64 : (v : ℕ) → v < 2 ^ 64 → Reads read_uint64 (write_uint64 v) v
unfolding read_uint64 write_uint64
Reads-uint64 v h = record { reads = λ rest. ground arith }

pub Reads-bytes : (e : Error) (xs : Bytes) → Reads (read_bytes e (length xs)) (write_bytes xs) xs
unfolding read_bytes write_bytes
Reads-bytes e xs = record {
  reads = λ rest. rw (
    le→ltb (length (xs ++ rest)) (length xs) (omega (arith, length-append xs rest)),
    take-length-append,
    drop-length-append,
  );
}

pub Reads-size : (n : ℕ) → n < 2 ^ 32 → Reads read_uint32 (write_size n) n
unfolding write_size
Reads-size n h = let e : n % 2 ^ 32 ≡ n = omega arith in rw e (Reads-uint32 n h)

pub Reads-string : (s : Bytes) → length s < 2 ^ 32 → Reads read_string (write_string s) s
unfolding read_string write_string
Reads-string s h = Reads-bind _ _ _ _ _ _ (Reads-size _ h) (Reads-bytes Error.string s)

pub run-Reads :
    {A : Type 0} {m : Reader A} {bs : Bytes} {a : A}
    → Reads m bs a
    → (rest : Bytes) → run m (bs ++ rest) ≡ ok a
run-Reads p rest = rw (run, p.reads rest)

-- A counted loop of reads takes back what a loop of writes has appended.
pub Reads-count :
    {A : Type 0} (P : A → Type 0) (m : Reader A) (w : A → Bytes)
    → ((x : A) → P x → Reads m (w x) x)
    → (xs : List A) → All P xs
    → Reads (read_count (length xs) m) (write_all w xs) xs
unfolding read_count write_all
Reads-count P m w item [] h = Reads-return []
Reads-count P m w item (x ∷ xs) (hx, hxs) =
    let rest = Reads-count P m w item xs hxs in
    Reads-bind _ _ _ _ _ _ (item x hx) (Reads-last _ _ _ _ _ rest (Reads-return (x ∷ xs)))

-- The same, where each read gives what is carried of the element that was written.
pub Reads-count_carried :
    {A : Type 0} (P : A → Type 0) (m : Reader A) (w : A → Bytes) (carried : A → A)
    → ((x : A) → P x → Reads m (w x) (carried x))
    → (xs : List A) → All P xs
    → Reads (read_count (length xs) m) (write_all w xs) (map carried xs)
unfolding read_count write_all
Reads-count_carried P m w carried item [] h = Reads-return []
Reads-count_carried P m w carried item (x ∷ xs) (hx, hxs) =
    let rest = Reads-count_carried P m w carried item xs hxs in
    Reads-bind _ _ _ _ _ _ (item x hx)
      (Reads-last _ _ _ _ _ rest (Reads-return (carried x ∷ map carried xs)))

pub Reads-strings :
    (xs : List Bytes)
    → All (λ x. length x < 2 ^ 32) xs
    → Reads (read_count (length xs) read_string) (write_all write_string xs) xs
Reads-strings = Reads-count (λ x. length x < 2 ^ 32) read_string write_string Reads-string

-- A field written as its size and its bytes.
pub Reads-sized :
    {B : Type 0} (e : Error) (f : Bytes → Reader B) (xs cs : Bytes) (b : B)
    → length xs < 2 ^ 32
    → Reads (f xs) cs b
    → Reads
        (read_uint32 >>= λ n. read_bytes e n >>= f)
        (write_size (length xs) ++ (write_bytes xs ++ cs))
        b
Reads-sized e f xs cs b h p =
    Reads-bind _ _ _ _ _ _ (Reads-size _ h) (Reads-bind _ _ _ _ _ _ (Reads-bytes e xs) p)

pub ruleset fields = (
  Reads-sized, Reads-bind, Reads-last, Reads-return, Reads-uint8, Reads-uint16, Reads-uint32,
  Reads-uint64, Reads-string, Reads-size, Reads-strings,
)
