-- ===== src/Transfer/Bits.antt =====
-- `std::bitset<1024>`, as a list of 1024 Booleans. `test` and `set` throw `std::out_of_range` for a
-- position outside; the callers test the position first.
use hyper_share.Prelude.{
  ℕ, zero, suc, ◌+◌, ◌≤◌, ◌<◌, ◌≡◌, refl, ap, Bool, true, false, List, [], ◌∷◌, length, get_or, set,
  replicate, arith, if◌then◌else◌, ◌==◌, sym,
}

abbrev pub Bits : Type 0
Bits = List Bool

abbrev pub bits_size : ℕ
bits_size = 1024

unfoldable pub no_bits : Bits
no_bits = replicate bits_size false

abbrev pub bit_at : Bits → ℕ → Bool
bit_at bits i = get_or bits i false

unfoldable pub count : Bits → ℕ
count [] = 0
count (true ∷ bits) = suc (count bits)
count (false ∷ bits) = count bits

-- The sum of `weight` over the positions that are set, the first being position `i`.
unfoldable pub sum_set : (ℕ → ℕ) → ℕ → Bits → ℕ
sum_set weight i [] = 0
sum_set weight i (b ∷ bits) = (if b then weight i else 0) + sum_set weight (suc i) bits

pub count-le : (bits : Bits) → count bits ≤ length bits
unfolding count
count-le [] = omega arith
count-le (true ∷ bits) = omega (arith, count-le bits)
count-le (false ∷ bits) = omega (arith, count-le bits)

pub count-set_new :
    (bits : Bits) (i : ℕ)
    → i < length bits
    → bit_at bits i ≡ false
    → count (set bits i true) ≡ suc (count bits)
unfolding count
count-set_new [] i h e = absurd (omega arith)
count-set_new (true ∷ bits) zero h e = cc
count-set_new (false ∷ bits) zero h e = refl
count-set_new (true ∷ bits) (suc i) h e = ap suc (count-set_new bits i (omega arith) e)
count-set_new (false ∷ bits) (suc i) h e = count-set_new bits i (omega arith) e

pub set_known : (bits : Bits) (i : ℕ) → bit_at bits i ≡ true → set bits i true ≡ bits
set_known [] i e = refl
set_known (b ∷ bits) zero e = ap (λ (x : Bool). x ∷ bits) (sym e)
set_known (b ∷ bits) (suc i) e = ap (◌∷◌ b) (set_known bits i e)

pub bit_at-set :
    (bits : Bits) (i j : ℕ)
    → i < length bits
    → bit_at (set bits i true) j ≡ (if i == j then true else bit_at bits j)
bit_at-set [] i j h = absurd (omega arith)
bit_at-set (b ∷ bits) zero zero h = refl
bit_at-set (b ∷ bits) zero (suc j) h = ground arith
bit_at-set (b ∷ bits) (suc i) zero h = ground arith
bit_at-set (b ∷ bits) (suc i) (suc j) h = ground (arith, bit_at-set bits i j)

pub sum_set-set_new :
    (weight : ℕ → ℕ) (k : ℕ) (bits : Bits) (i : ℕ)
    → i < length bits
    → bit_at bits i ≡ false
    → sum_set weight k (set bits i true) ≡ sum_set weight k bits + weight (k + i)
unfolding sum_set
sum_set-set_new weight k [] i h e = absurd (omega arith)
sum_set-set_new weight k (b ∷ bits) zero h e =
    let z : weight (k + 0) ≡ weight k = ap weight (omega arith) in ground (arith, z)
sum_set-set_new weight k (b ∷ bits) (suc i) h e =
    let z : weight (suc k + i) ≡ weight (k + suc i) = ap weight (omega arith) in
    omega (arith, z, sum_set-set_new weight (suc k) bits i (omega arith) e)

pub count-replicate : (n : ℕ) → count (replicate n false) ≡ 0
unfolding count
count-replicate zero = refl
count-replicate (suc n) = count-replicate n

pub sum_set-replicate : (weight : ℕ → ℕ) (k n : ℕ) → sum_set weight k (replicate n false) ≡ 0
unfolding sum_set
sum_set-replicate weight k zero = refl
sum_set-replicate weight k (suc n) = omega (arith, sum_set-replicate weight (suc k) n)

bit_at-replicate : (n j : ℕ) → bit_at (replicate n false) j ≡ false
bit_at-replicate zero j = refl
bit_at-replicate (suc n) zero = refl
bit_at-replicate (suc n) (suc j) = bit_at-replicate n j

pub length-no_bits : length no_bits ≡ bits_size
unfolding no_bits
length-no_bits = refl

pub bit_at-no_bits : (j : ℕ) → bit_at no_bits j ≡ false
unfolding no_bits
bit_at-no_bits j = bit_at-replicate bits_size j

pub sum_set-no_bits : (weight : ℕ → ℕ) → sum_set weight 0 no_bits ≡ 0
unfolding no_bits
sum_set-no_bits weight = sum_set-replicate weight 0 bits_size
