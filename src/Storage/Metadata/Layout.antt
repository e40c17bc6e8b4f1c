-- ===== src/Storage/Metadata/Layout.antt =====
-- How a file is cut into chunks: their number, their sizes, and the sum of the sizes.
use native.Mathlib.Nat.{div-add-mod, mod-lt, mul-le-mul_left, mul_comm}
use hyper_share.Prelude.{
  ℕ, zero, suc, ◌+◌, ◌-◌, ◌*◌, ◌/◌, ◌%◌, ◌^◌, ◌≤◌, ◌<◌, ◌≡◌, sym, ap, ◌∙◌, Option, some, none, ◌==◌,
  if◌then◌else◌, arith, ltb, Bool-cases, inl, inr, false,
}
use hyper_share.Storage.Metadata.{FileMetadata, total_chunks}

-- The sum of `weight` over `n` positions from `k` on.
unfoldable pub sum_below : (ℕ → ℕ) → ℕ → ℕ → ℕ
sum_below weight k zero = 0
sum_below weight k (suc n) = weight k + sum_below weight (suc k) n

pub sum_below-last :
    (weight : ℕ → ℕ) (k n : ℕ) → sum_below weight k (suc n) ≡ sum_below weight k n + weight (k + n)
unfolding sum_below
sum_below-last weight k zero = omega (arith, ap weight {x = k + 0} {y = k} (omega arith))
sum_below-last weight k (suc n) = omega (
  arith,
  sum_below-last weight (suc k) n,
  ap weight {x = suc k + n} {y = k + suc n} (omega arith),
)

pub sum_below-const :
    (weight : ℕ → ℕ) (c k n : ℕ)
    → ((j : ℕ) → j < k + n → weight j ≡ c)
    → sum_below weight k n ≡ n * c
unfolding sum_below
sum_below-const weight c k zero h = omega arith
sum_below-const weight c k (suc n) h =
    omega (arith, h k (omega arith), sum_below-const weight c (suc k) n (λ j lt. h j (omega arith)))

-- A file that is cut into chunks as the source does it.
pub record IsLaidOut (m : FileMetadata) : Type 0 where
  pub chunk_size_pos : 0 < m.chunk_size
  pub size_range : m.file_size + m.chunk_size < 2 ^ 64
  pub counted : total_chunks m ≡ some m.chunk_count

-- No quotient is below another one of the same number.
quotient_not_below : (c q n a b : ℕ) → c * q + a ≡ c * n + b → a < c → n ≤ q
quotient_not_below c q n a b e ha = elim (Bool-cases (ltb q n)) [
  | inr ge ↦ ground (arith, ge)
  | inl lt ↦
      let m : c * suc q ≤ c * n = mul-le-mul_left c (ground (arith, lt)) in
      absurd (omega (arith, m))
]

quotient_unique : (c q n a b : ℕ) → c * q + a ≡ c * n + b → a < c → b < c → q ≡ n
quotient_unique c q n a b e ha hb =
    omega (arith, quotient_not_below c q n a b e ha, quotient_not_below c n q b a (sym e) hb)

-- The last of `suc n` chunks is what the others leave.
pub last_chunk :
    (f c n : ℕ) → 0 < c → suc n ≡ (f + c - 1) / c → n * c + (if f % c == 0 then c else f % c) ≡ f
last_chunk f c n hc e =
    let up : c * suc n + (f + c - 1) % c ≡ f + c - 1 =
      ap (λ q. c * q + (f + c - 1) % c) e ∙ div-add-mod (f + c - 1) c in
    let whole = div-add-mod f c in
    let room = mod-lt (f + c - 1) hc in
    let swap = mul_comm n c in
    elim (Bool-cases (f % c == 0)) [
      | inl z ↦
          let z' : f % c ≡ 0 = ground (arith, z) in
          let q : suc n ≡ f / c =
            quotient_unique c (suc n) (f / c) ((f + c - 1) % c) (c - 1)
              (omega (arith, up, whole, z')) room (omega arith) in
          let back : c * suc n ≡ c * (f / c) = ap (◌*◌ c) q in
          rw z (omega (arith, back, whole, z', swap))
      | inr z ↦
          let z' : 0 < f % c = ground (arith, z) in
          let part = mod-lt f hc in
          let q : suc n ≡ suc (f / c) =
            quotient_unique c (suc n) (suc (f / c)) ((f + c - 1) % c) (f % c - 1)
              (omega (arith, up, whole, z')) room (omega (arith, part)) in
          let back : c * suc n ≡ c * suc (f / c) = ap (◌*◌ c) q in
          rw z (omega (arith, back, whole, swap))
    ]

-- The number that a result holds, 0 for none.
abbrev number_or_zero : Option ℕ → ℕ
number_or_zero none = 0
number_or_zero (some n) = n

-- The number of chunks, with no wrap.
pub total_chunks_exact :
    (m : FileMetadata)
    → IsLaidOut m
    → m.chunk_count ≡ (m.file_size + m.chunk_size - 1) / m.chunk_size
unfolding total_chunks
total_chunks_exact m v =
    let nz : (m.chunk_size == 0) ≡ false = ground (arith, v) in
    let small : (m.file_size + m.chunk_size + 2 ^ 64 - 1) % 2 ^ 64
        ≡ m.file_size + m.chunk_size - 1 =
      omega (arith, v.chunk_size_pos, v.size_range) in
    let n : number_or_zero (total_chunks m) ≡ (m.file_size + m.chunk_size - 1) / m.chunk_size =
      rw (nz, small) in
    sym (ap number_or_zero v.counted) ∙ n
