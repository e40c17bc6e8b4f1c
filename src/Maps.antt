-- ===== src/Maps.antt =====
-- `std::unordered_map` as an association list, over a type of keys with an equality test. The order
-- of the entries is one that iteration may take. `insert` is `m[k] = v`.
use hyper_share.Prelude.{
  ℕ, ◌+◌, ◌≤◌, ◌≡◌, refl, ◌↔◌, Bool, true, false, ◌&&◌, List, [], ◌∷◌, Option, none, some,
  if◌then◌else◌, ◌==◌ as nat_eq_test, ==_iff, arith, length, Bool-cases, inl, inr, ap, ◌∙◌,
}

pub record Eq (K : Type 0) : Type 0 where
  pub beq : K → K → Bool
  pub beq_iff : (a b : K) → (beq a b ≡ true) ↔ (a ≡ b)

infix 50 ◌=?◌
abbrev pub ◌=?◌ : {K : Type 0} ⦃e : Eq K⦄ → K → K → Bool
◌=?◌ ⦃e⦄ = e.beq

instance abbrev pub nat_eq : Eq ℕ
nat_eq = record { beq = nat_eq_test; beq_iff = ==_iff }

unfoldable pub bytes_beq : List ℕ → List ℕ → Bool
bytes_beq [] [] = true
bytes_beq [] (y ∷ ys) = false
bytes_beq (x ∷ xs) [] = false
bytes_beq (x ∷ xs) (y ∷ ys) = nat_eq_test x y && bytes_beq xs ys

bytes_beq→eq : (xs ys : List ℕ) → bytes_beq xs ys ≡ true → xs ≡ ys
unfolding bytes_beq
bytes_beq→eq [] [] h = refl
bytes_beq→eq [] (y ∷ ys) h = cc
bytes_beq→eq (x ∷ xs) [] h = cc
bytes_beq→eq (x ∷ xs) (y ∷ ys) h = ground (arith, bytes_beq→eq xs ys)

pub bytes_beq_self : (xs : List ℕ) → bytes_beq xs xs ≡ true
unfolding bytes_beq
bytes_beq_self [] = refl
bytes_beq_self (x ∷ xs) = ground (arith, bytes_beq_self xs)

pub bytes_beq_iff : (xs ys : List ℕ) → (bytes_beq xs ys ≡ true) ↔ (xs ≡ ys)
bytes_beq_iff xs ys = (bytes_beq→eq xs ys, λ e. rw e (bytes_beq_self ys))

instance abbrev pub bytes_eq : Eq (List ℕ)
bytes_eq = record { beq = bytes_beq; beq_iff = bytes_beq_iff }

abbrev pub Map : Type 0 → Type 0 → Type 0
Map K V = List (K × V)

abbrev pub unless : {V : Type 0} → (V → Bool) → Option V → Option V
unless p none = none
unless p (some v) = if p v then none else some v

module _ {K V : Type 0} ⦃e : Eq K⦄ where
  unfoldable pub find : K → Map K V → Option V
  find k [] = none
  find k ((j, v) ∷ m) = if j =? k then some v else find k m

  unfoldable pub insert : K → V → Map K V → Map K V
  insert k v [] = (k, v) ∷ []
  insert k v ((j, w) ∷ m) = if j =? k then (j, v) ∷ m else (j, w) ∷ insert k v m

  unfoldable pub erase : K → Map K V → Map K V
  erase k [] = []
  erase k ((j, w) ∷ m) = if j =? k then erase k m else (j, w) ∷ erase k m

  pub find-insert :
      (k j : K) (v : V) (m : Map K V)
      → find j (insert k v m) ≡ (if k =? j then some v else find j m)
  unfolding find insert
  find-insert k j v [] = refl
  find-insert k j v ((i, w) ∷ m) =
      ground (arith, e.beq_iff k j, e.beq_iff i k, e.beq_iff i j, find-insert k j v m)

  pub find-erase :
      (k j : K) (m : Map K V) → find j (erase k m) ≡ (if k =? j then none else find j m)
  unfolding find erase
  find-erase k j [] = ground arith
  find-erase k j ((i, w) ∷ m) =
      ground (arith, e.beq_iff k j, e.beq_iff i k, e.beq_iff i j, find-erase k j m)

  pub length-insert-le : (k : K) (v : V) (m : Map K V) → length (insert k v m) ≤ length m + 1
  unfolding insert
  length-insert-le k v [] = omega arith
  length-insert-le k v ((i, w) ∷ m) = ground (arith, length-insert-le k v m)

  pub length-insert_known :
      (k : K) (v w : V) (m : Map K V) → find k m ≡ some w → length (insert k v m) ≡ length m
  unfolding insert find
  length-insert_known k v w [] h = cc
  length-insert_known k v w ((i, u) ∷ m) h = ground (arith, length-insert_known k v w m)

  pub length-erase-le : (k : K) (m : Map K V) → length (erase k m) ≤ length m
  unfolding erase
  length-erase-le k [] = omega arith
  length-erase-le k ((i, w) ∷ m) = ground (arith, length-erase-le k m)

  -- The loop `if (p(it->second)) it = m.erase(it); else ++it;`
  unfoldable pub erase_if : (V → Bool) → Map K V → Map K V
  erase_if p [] = []
  erase_if p ((k, v) ∷ m) = if p v then erase_if p m else (k, v) ∷ erase_if p m

  -- Each key once.
  abbrev pub IsMap : Map K V → Type 0
  IsMap [] = Unit
  IsMap ((k, v) ∷ m) = (find k m ≡ none) × IsMap m

  pub insert-IsMap : (k : K) (v : V) (m : Map K V) → IsMap m → IsMap (insert k v m)
  unfolding insert find
  insert-IsMap k v [] h = (refl, tt)
  insert-IsMap k v ((i, w) ∷ m) (f, h) = elim (Bool-cases (i =? k)) [
    | inl same ↦ rw same (f, h)
    | inr other ↦
        rw other
          (ground (arith, find-insert k i v m, e.beq_iff k i, e.beq_iff i k), insert-IsMap k v m h)
  ]

  pub erase-IsMap : (k : K) (m : Map K V) → IsMap m → IsMap (erase k m)
  unfolding erase
  erase-IsMap k [] h = tt
  erase-IsMap k ((i, w) ∷ m) (f, h) = elim (Bool-cases (i =? k)) [
    | inl same ↦ rw same (erase-IsMap k m h)
    | inr other ↦ rw other (ground (arith, find-erase k i m, f), erase-IsMap k m h)
  ]

  pub find-erase_if :
      (p : V → Bool) (k : K) (m : Map K V) → IsMap m → find k (erase_if p m) ≡ unless p (find k m)
  unfolding erase_if find
  find-erase_if p k [] h = refl
  find-erase_if p k ((i, w) ∷ m) (f, h) =
      ground (arith, e.beq_iff i k, find-erase_if p k m h, find-erase_if p i m h)

  pub erase_if-IsMap : (p : V → Bool) (m : Map K V) → IsMap m → IsMap (erase_if p m)
  unfolding erase_if
  erase_if-IsMap p [] h = tt
  erase_if-IsMap p ((i, w) ∷ m) (f, h) = elim (Bool-cases (p w)) [
    | inl gone ↦ rw gone (erase_if-IsMap p m h)
    | inr kept ↦ rw kept (find-erase_if p i m h ∙ ap (unless p) f, erase_if-IsMap p m h)
  ]

  pub length-erase_if-le : (p : V → Bool) (m : Map K V) → length (erase_if p m) ≤ length m
  unfolding erase_if
  length-erase_if-le p [] = omega arith
  length-erase_if-le p ((i, w) ∷ m) = ground (arith, length-erase_if-le p m)
