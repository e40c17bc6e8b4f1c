-- ===== src/Wire/Widths.antt =====
-- The widths of the fields: how many bytes a writer appends, and that a reader of fields of fixed
-- width succeeds where that many bytes are left.
use hyper_share.Prelude.{ℕ, ◌+◌, ◌≤◌, ◌≡◌, refl, [], ◌∷◌, length, arith}
use hyper_share.Wire.{
  Bytes, Reader, ok, ◌>>=◌, return, write_uint8, write_uint16, write_uint32, write_uint64,
  read_uint8, read_uint16, read_uint32, read_uint64,
}

pub length-write_uint8 : (v : ℕ) → length (write_uint8 v) ≡ 1
unfolding write_uint8
length-write_uint8 v = refl

pub length-write_uint16 : (v : ℕ) → length (write_uint16 v) ≡ 2
unfolding write_uint16
length-write_uint16 v = refl

pub length-write_uint32 : (v : ℕ) → length (write_uint32 v) ≡ 4
unfolding write_uint32
length-write_uint32 v = refl

pub length-write_uint64 : (v : ℕ) → length (write_uint64 v) ≡ 8
unfolding write_uint64
length-write_uint64 v = refl

pub ruleset widths =
    (length-write_uint8, length-write_uint16, length-write_uint32, length-write_uint64)

-- `m` succeeds where `n` bytes are left, and takes just those.
pub record Takes {A : Type 0} (n : ℕ) (m : Reader A) : Type 0 where
  pub takes :
      (s : Bytes)
      → n ≤ length s
      → (a : A) × (s' : Bytes) × (m s ≡ ok (a, s')) × (n + length s' ≡ length s)

pub Takes-bind :
    {A B : Type 0} (k n : ℕ) (m : Reader A) (f : A → Reader B)
    → Takes k m
    → ((a : A) → Takes n (f a))
    → Takes (k + n) (m >>= f)
unfolding ◌>>=◌
Takes-bind k n m f p q = record {
  takes = λ s h.
      let (a, s', e, l) = p.takes s (omega arith) in
      let (b, s'', e', l') = (q a).takes s' (omega arith) in
      (b, s'', rw (◌>>=◌, e) e', omega arith);
}

pub Takes-return : {A : Type 0} (a : A) → Takes 0 (return a)
unfolding return
Takes-return a = record { takes = λ s h. (a, s, refl, omega arith) }

takes_uint8 :
    (s : Bytes)
    → 1 ≤ length s
    → (v : ℕ) × (s' : Bytes) × (read_uint8 s ≡ ok (v, s')) × (1 + length s' ≡ length s)
unfolding read_uint8
takes_uint8 [] h = absurd (omega arith)
takes_uint8 (a ∷ s) h = (_, s, refl, omega arith)

pub Takes-uint8 : Takes 1 read_uint8
Takes-uint8 = record { takes = takes_uint8 }

takes_uint16 :
    (s : Bytes)
    → 2 ≤ length s
    → (v : ℕ) × (s' : Bytes) × (read_uint16 s ≡ ok (v, s')) × (2 + length s' ≡ length s)
unfolding read_uint16
takes_uint16 [] h = absurd (omega arith)
takes_uint16 (a ∷ []) h = absurd (omega arith)
takes_uint16 (a ∷ b ∷ s) h = (_, s, refl, omega arith)

pub Takes-uint16 : Takes 2 read_uint16
Takes-uint16 = record { takes = takes_uint16 }

takes_uint32 :
    (s : Bytes)
    → 4 ≤ length s
    → (v : ℕ) × (s' : Bytes) × (read_uint32 s ≡ ok (v, s')) × (4 + length s' ≡ length s)
unfolding read_uint32
takes_uint32 [] h = absurd (omega arith)
takes_uint32 (a ∷ []) h = absurd (omega arith)
takes_uint32 (a ∷ b ∷ []) h = absurd (omega arith)
takes_uint32 (a ∷ b ∷ c ∷ []) h = absurd (omega arith)
takes_uint32 (a ∷ b ∷ c ∷ d ∷ s) h = (_, s, refl, omega arith)

pub Takes-uint32 : Takes 4 read_uint32
Takes-uint32 = record { takes = takes_uint32 }

takes_uint64 :
    (s : Bytes)
    → 8 ≤ length s
    → (v : ℕ) × (s' : Bytes) × (read_uint64 s ≡ ok (v, s')) × (8 + length s' ≡ length s)
unfolding read_uint64
takes_uint64 [] h = absurd (omega arith)
takes_uint64 (a ∷ []) h = absurd (omega arith)
takes_uint64 (a ∷ b ∷ []) h = absurd (omega arith)
takes_uint64 (a ∷ b ∷ c ∷ []) h = absurd (omega arith)
takes_uint64 (a ∷ b ∷ c ∷ d ∷ []) h = absurd (omega arith)
takes_uint64 (a ∷ b ∷ c ∷ d ∷ e ∷ []) h = absurd (omega arith)
takes_uint64 (a ∷ b ∷ c ∷ d ∷ e ∷ f ∷ []) h = absurd (omega arith)
takes_uint64 (a ∷ b ∷ c ∷ d ∷ e ∷ f ∷ g ∷ []) h = absurd (omega arith)
takes_uint64 (a ∷ b ∷ c ∷ d ∷ e ∷ f ∷ g ∷ i ∷ s) h = (_, s, refl, omega arith)

pub Takes-uint64 : Takes 8 read_uint64
Takes-uint64 = record { takes = takes_uint64 }

pub ruleset takes_fields =
    (Takes-bind, Takes-return, Takes-uint8, Takes-uint16, Takes-uint32, Takes-uint64)
