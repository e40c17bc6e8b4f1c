-- ===== src/Wire/Prefix.antt =====
-- What is cut short is refused: a reader that succeeds does not look at what lies behind the bytes
-- that it takes, so on a proper prefix of a message it cannot succeed.
use hyper_share.Prelude.{
  ℕ, zero, suc, ◌≡◌, refl, inl, inr, ◌⊎◌, [], ◌∷◌, ◌++◌, append-nil, take-append_le, drop-append_le,
  arith, length-append,
}
use hyper_share.Wire.{
  Bytes, Error, Reader, Result, ok, err, ◌>>=◌, return, run, read_count, read_uint8, read_uint16,
  read_uint32, read_uint64, read_bytes, read_string,
}
use hyper_share.Wire.Laws.{Reads}

pub record Extends {A : Type 0} (m : Reader A) : Type 0 where
  pub extends : (s t s' : Bytes) (a : A) → m s ≡ ok (a, s') → m (s ++ t) ≡ ok (a, s' ++ t)

pub Result-cases {ℓ} :
    {A : Type ℓ} (r : Result A) → ((a : A) × (r ≡ ok a)) ⊎ ((e : Error) × (r ≡ err e))
Result-cases (ok a) = inl (a, refl)
Result-cases (err e) = inr (e, refl)

module _ {A B : Type 0} where
  pub Extends-bind :
      (m : Reader A) (f : A → Reader B) → Extends m → ((a : A) → Extends (f a)) → Extends (m >>= f)
  unfolding ◌>>=◌
  Extends-bind m f p q = record {
    extends = λ s t s' b h. elim (Result-cases (m s)) [
      | inl ((a, s''), e) ↦
          rw (◌>>=◌, p.extends s t s'' a e) ((q a).extends s'' t s' b (rw (e, ◌>>=◌) at h))
      | inr (x, e) ↦ ground (arith, rw (e, ◌>>=◌) at h)
    ];
  }

pub Extends-return : {A : Type 0} (a : A) → Extends (return a)
unfolding return
Extends-return a = record { extends = λ s t s' b h. ground arith }

pub Extends-uint8 : Extends read_uint8
unfolding read_uint8
Extends-uint8 = record { extends = λ s t s' b h. ground arith }

pub Extends-uint16 : Extends read_uint16
unfolding read_uint16
Extends-uint16 = record { extends = λ s t s' b h. ground arith }

pub Extends-uint32 : Extends read_uint32
unfolding read_uint32
Extends-uint32 = record { extends = λ s t s' b h. ground arith }

pub Extends-uint64 : Extends read_uint64
unfolding read_uint64
Extends-uint64 = record { extends = λ s t s' b h. ground arith }

pub Extends-bytes : (e : Error) (n : ℕ) → Extends (read_bytes e n)
unfolding read_bytes
Extends-bytes e n = record {
  extends =
      λ s t s' b h. ground (arith, length-append s t, take-append_le n s t, drop-append_le n s t);
}

pub Extends-string : Extends read_string
unfolding read_string
Extends-string = Extends-bind _ _ Extends-uint32 (Extends-bytes Error.string)

pub Extends-count : {A : Type 0} (m : Reader A) → Extends m → (n : ℕ) → Extends (read_count n m)
unfolding read_count
Extends-count m p zero = Extends-return []
Extends-count m p (suc n) =
    Extends-bind _ _ p λ x. Extends-bind _ _ (Extends-count m p n) λ xs. Extends-return (x ∷ xs)

pub ruleset prefixes = (
  Extends-bind, Extends-return, Extends-uint8, Extends-uint16, Extends-uint32, Extends-uint64,
  Extends-string, Extends-bytes, Extends-count,
)

-- If `m` reads `a` off `bs`, then on a proper prefix of `bs` it throws.
pub err_of_prefix :
    {A : Type 0} {m : Reader A} {bs : Bytes} {a : A}
    → Extends m
    → Reads m bs a
    → (front back : Bytes) (x : ℕ) → bs ≡ front ++ x ∷ back
    → (e : Error) × (run m front ≡ err e)
err_of_prefix {m} {bs} {a} p r front back x h = elim (Result-cases (m front)) [
  | inl ((b, s'), e) ↦ absurd (
      ground (
        arith,
        p.extends front (x ∷ back) s' b e,
        r.reads [],
        append-nil bs,
        h,
        length-append s' (x ∷ back),
      ))
  | inr (e, q) ↦ (e, rw (run, q))
]
