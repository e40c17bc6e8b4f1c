-- ===== src/Router/Double.antt =====
-- The operations on `double` that src/network/peer_router.cpp uses. A literal such as 0.2 is the
-- quotient of two whole numbers, as both are rounded in the same way.
use hyper_share.Prelude.{ℕ, ◌+◌, ◌-◌, ◌*◌, ◌/◌, Bool, if◌then◌else◌, ltb}

pub record Double (F : Type 0) : Type 0 where
  pub of_nat : ℕ → F
  pub add : F → F → F
  pub sub : F → F → F
  pub mul : F → F → F
  pub div : F → F → F
  pub lt : F → F → Bool
  -- `static_cast<std::uint32_t>`
  pub truncate : F → ℕ

module _ {F : Type 0} ⦃d : Double F⦄ where
  abbrev pub zero_ : F
  zero_ = d.of_nat 0

  abbrev pub one : F
  one = d.of_nat 1

  -- `n / 10`
  abbrev pub tenths : ℕ → F
  tenths n = d.div (d.of_nat n) (d.of_nat 10)

  -- `std::min` and `std::max`
  abbrev pub min_double : F → F → F
  min_double a b = if d.lt b a then b else a

  abbrev pub max_double : F → F → F
  max_double a b = if d.lt a b then b else a

-- Whole numbers for the runs: the operations of an interface that promises nothing of them.
instance abbrev pub whole_scores : Double ℕ
whole_scores = record {
  of_nat = λ n. n;
  add = ◌+◌;
  sub = ◌-◌;
  mul = ◌*◌;
  div = ◌/◌;
  lt = ltb;
  truncate = λ x. x;
}
