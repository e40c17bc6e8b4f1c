-- ===== src/Transfer/Session/Sizes.antt =====
-- The sizes of the chunks of a file, added up.
use native.Mathlib.Nat.{div-add-mod, mod-lt}
use hyper_share.Prelude.{
  ℕ, zero, suc, ◌+◌, ◌-◌, ◌*◌, ◌/◌, ◌%◌, ◌≤◌, ◌<◌, ◌≡◌, refl, ap, ◌∙◌, true, false, [], ◌∷◌, ◌==◌,
  if◌then◌else◌, arith,
}
use hyper_share.Storage.Metadata.{FileMetadata}
use hyper_share.Storage.Metadata.Layout.{
  IsLaidOut, sum_below, sum_below-last, sum_below-const, last_chunk, total_chunks_exact,
}
use hyper_share.Transfer.Bits.{Bits, bit_at, count, sum_set}
use hyper_share.Transfer.Session.{expected_size}

sum_expected :
    (m : FileMetadata) (n : ℕ)
    → 0 < m.chunk_size
    → n ≡ m.chunk_count
    → n ≡ (m.file_size + m.chunk_size - 1) / m.chunk_size
    → sum_below (expected_size m) 0 n ≡ m.file_size
unfolding sum_below expected_size
sum_expected m zero hc e q =
    let split : m.chunk_size * 0 + (m.file_size + m.chunk_size - 1) % m.chunk_size
        ≡ m.file_size + m.chunk_size - 1 =
      ap (λ k. m.chunk_size * k + (m.file_size + m.chunk_size - 1) % m.chunk_size) q
      ∙ div-add-mod (m.file_size + m.chunk_size - 1) m.chunk_size in
    omega (arith, split, mod-lt (m.file_size + m.chunk_size - 1) hc)
sum_expected m (suc n) hc e q =
    let others : (j : ℕ) → j < 0 + n → expected_size m j ≡ m.chunk_size = λ j lt. ground arith in
    let last : expected_size m n
        ≡ (if m.file_size % m.chunk_size == 0 then m.chunk_size else m.file_size % m.chunk_size) =
      ground arith in
    omega (
      arith,
      sum_below-last (expected_size m) 0 n,
      ap (expected_size m) {x = 0 + n} {y = n} (omega arith),
      sum_below-const (expected_size m) m.chunk_size 0 n others,
      last,
      last_chunk m.file_size m.chunk_size n hc q,
    )

-- The sizes expected of the chunks of a file add up to its size.
pub sum_below-expected_size :
    (m : FileMetadata) → IsLaidOut m → sum_below (expected_size m) 0 m.chunk_count ≡ m.file_size
sum_below-expected_size m v =
    sum_expected m m.chunk_count v.chunk_size_pos refl (total_chunks_exact m v)

-- No bit at position `n` or later.
abbrev pub IsBelow : ℕ → Bits → Type 0
IsBelow n bits = (j : ℕ) → n ≤ j → bit_at bits j ≡ false

pub count-le_below : (bits : Bits) (n : ℕ) → IsBelow n bits → count bits ≤ n
unfolding count
count-le_below [] n h = omega arith
count-le_below (true ∷ bits) zero h = ground (arith, h 0 (omega arith))
count-le_below (false ∷ bits) zero h = count-le_below bits zero (λ j le. h (suc j) (omega arith))
count-le_below (true ∷ bits) (suc n) h =
    omega (arith, count-le_below bits n (λ j le. h (suc j) (omega arith)))
count-le_below (false ∷ bits) (suc n) h =
    omega (arith, count-le_below bits n (λ j le. h (suc j) (omega arith)))

sum_set-none : (weight : ℕ → ℕ) (k : ℕ) (bits : Bits) → count bits ≡ 0 → sum_set weight k bits ≡ 0
unfolding count sum_set
sum_set-none weight k [] e = refl
sum_set-none weight k (true ∷ bits) e = absurd (omega arith)
sum_set-none weight k (false ∷ bits) e = omega (arith, sum_set-none weight (suc k) bits e)

-- `n` bits below position `n` are all of them.
pub sum_set-full :
    (weight : ℕ → ℕ) (k : ℕ) (bits : Bits) (n : ℕ)
    → count bits ≡ n
    → IsBelow n bits
    → sum_set weight k bits ≡ sum_below weight k n
unfolding count sum_set sum_below
sum_set-full weight k bits zero e h = sum_set-none weight k bits e
sum_set-full weight k [] (suc n) e h = absurd (omega arith)
sum_set-full weight k (true ∷ bits) (suc n) e h =
    omega
      (arith, sum_set-full weight (suc k) bits n (omega arith) (λ j le. h (suc j) (omega arith)))
sum_set-full weight k (false ∷ bits) (suc n) e h =
    absurd (omega (arith, count-le_below bits n (λ j le. h (suc j) (omega arith))))
