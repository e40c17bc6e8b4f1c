-- ===== src/Crypto/Nonces/Window.antt =====
-- The window of one peer against the log of everything that was accepted.
use hyper_share.Prelude.{
  ℕ, suc, ◌+◌, ◌-◌, ◌%◌, ◌^◌, ◌≤◌, ◌<◌, ◌≡◌, refl, Bool, true, false, not, ◌&&◌, List, [], ◌∷◌, ltb,
  leb, ◌==◌, if◌then◌else◌, max, arith, Bool-cases, inl, inr,
}
use hyper_share.Crypto.Nonces.{
  PeerNonceState, new_state, is_member, set_insert, drop_below, cutoff_of, verify_nonce,
}

-- The specification: the log of the accepted values, its highest value, and what it accepts next: a
-- value that is not in the log and is at most `window_size` below the highest one.
abbrev pub highest : List ℕ → ℕ
highest [] = 0
highest (x ∷ xs) = max (highest xs) x

abbrev pub accepts : (window_size value : ℕ) → List ℕ → Bool
accepts window_size value log = not (is_member value log) && leb (highest log - window_size) value

-- The state keeps the highest value and the part of the log that lies in the window, ascending.
abbrev pub IsAscending : ℕ → List ℕ → Type 0
IsAscending low [] = Unit
IsAscending low (x ∷ xs) = (low ≤ x) × IsAscending (suc x) xs

pub record Refines (window_size : ℕ) (st : PeerNonceState) (log : List ℕ) : Type 0 where
  pub same_highest : st.highest_seen ≡ highest log
  pub ascending : IsAscending 0 st.recent_nonces
  pub same_members :
      (x : ℕ)
      → is_member x st.recent_nonces ≡ (is_member x log && leb (highest log - window_size) x)

IsAscending-weaken : (a b : ℕ) (xs : List ℕ) → a ≤ b → IsAscending b xs → IsAscending a xs
IsAscending-weaken a b [] h s = _
IsAscending-weaken a b (x ∷ xs) h (p, s) = (omega arith, s)

set_insert-IsAscending :
    (low v : ℕ) (xs : List ℕ) → low ≤ v → IsAscending low xs → IsAscending low (set_insert v xs)
unfolding set_insert
set_insert-IsAscending low v [] h s = (h, _)
set_insert-IsAscending low v (x ∷ xs) h (p, s) = elim (Bool-cases (ltb v x)) [
  | inl below ↦ rw below (h, (ground (arith, below), s))
  | inr above ↦ elim (Bool-cases (v == x)) [
    | inl same ↦ rw (above, same) (p, s)
    | inr other ↦
        rw (above, other) (p, set_insert-IsAscending (suc x) v xs (ground (arith, above, other)) s)
  ]
]

is_member-set_insert :
    (v x : ℕ) (xs : List ℕ)
    → is_member x (set_insert v xs) ≡ (if x == v then true else is_member x xs)
unfolding is_member set_insert
is_member-set_insert v x [] = refl
is_member-set_insert v x (y ∷ ys) = ground (arith, is_member-set_insert v x ys)

-- Below the first element of an ascending list there is none.
is_member_below : (low x : ℕ) (xs : List ℕ) → IsAscending low xs → x < low → is_member x xs ≡ false
unfolding is_member
is_member_below low x [] s h = refl
is_member_below low x (y ∷ ys) (p, s) h = ground (arith, is_member_below (suc y) x ys s)

drop_below-IsAscending :
    (low cutoff : ℕ) (xs : List ℕ) → IsAscending low xs → IsAscending low (drop_below cutoff xs)
unfolding drop_below
drop_below-IsAscending low cutoff [] s = _
drop_below-IsAscending low cutoff (x ∷ xs) (p, s) = elim (Bool-cases (ltb x cutoff)) [
  | inl old ↦
      rw old (
        IsAscending-weaken low (suc x) _ (omega arith) (drop_below-IsAscending (suc x) cutoff xs s))
  | inr young ↦ rw young (p, s)
]

is_member-drop_below :
    (low cutoff x : ℕ) (xs : List ℕ)
    → IsAscending low xs
    → is_member x (drop_below cutoff xs) ≡ (is_member x xs && leb cutoff x)
unfolding is_member drop_below
is_member-drop_below low cutoff x [] s = refl
is_member-drop_below low cutoff x (y ∷ ys) (p, s) =
    ground (arith, is_member-drop_below (suc y) cutoff x ys s, is_member_below (suc y) x ys s)

cutoff_of_lem : (w h : ℕ) → cutoff_of w h ≡ h - w
cutoff_of_lem w h = ground arith

accept-Refines :
    (w v : ℕ) (st : PeerNonceState) (log : List ℕ)
    → Refines w st log
    → Refines w
        (record {
          highest_seen = max st.highest_seen v;
          recent_nonces =
              drop_below (cutoff_of w (max st.highest_seen v)) (set_insert v st.recent_nonces);
        })
        (v ∷ log)
unfolding is_member
accept-Refines w v st log r =
    let s = set_insert-IsAscending 0 v st.recent_nonces (omega arith) r.ascending in
    let c = cutoff_of_lem w (max st.highest_seen v) in
    record {
      same_highest = omega (arith, r.same_highest);
      ascending = drop_below-IsAscending 0 _ _ s;
      same_members = λ x. ground (
        arith,
        is_member-drop_below 0 (cutoff_of w (max st.highest_seen v)) x
            (set_insert v st.recent_nonces) s,
        is_member-set_insert v x st.recent_nonces,
        r.same_members x,
        r.same_highest,
        c,
      );
    }

-- The log after a value that the state took or refused.
abbrev pub logged : Bool → ℕ → List ℕ → List ℕ
logged accepted value log = if accepted then value ∷ log else log

-- What the state takes, the specification takes, and the state goes on to keep the window.
pub verify_nonce-Refines :
    (w v : ℕ) (st : PeerNonceState) (log : List ℕ)
    → Refines w st log
    → ((verify_nonce w v st).1 ≡ true → accepts w v log ≡ true)
      × Refines w (verify_nonce w v st).0 (logged (verify_nonce w v st).1 v log)
unfolding verify_nonce
verify_nonce-Refines w v st log r = elim (Bool-cases (is_member v st.recent_nonces)) [
  | inl seen ↦ rw seen (λ e. cc, r)
  | inr new ↦ elim (Bool-cases (ltb ((v + w) % 2 ^ 64) st.highest_seen)) [
    | inl old ↦ rw (new, old) (λ e. cc, r)
    | inr young ↦
        rw (new, young)
          (
            λ e. ground (arith, young, new, r.same_members v, r.same_highest),
            accept-Refines w v st log r,
          )
  ]
]

-- Where the sum of the value and the window does not wrap, the state takes just what the
-- specification takes.
pub verify_nonce-accepts :
    (w v : ℕ) (st : PeerNonceState) (log : List ℕ)
    → Refines w st log
    → v + w < 2 ^ 64
    → (verify_nonce w v st).1 ≡ accepts w v log
unfolding verify_nonce
verify_nonce-accepts w v st log r h =
    let exact : (v + w) % 2 ^ 64 ≡ v + w = omega arith in
    rw exact (ground (arith, r.same_members v, r.same_highest))

pub new_state-Refines : (w : ℕ) → Refines w new_state []
unfolding is_member
new_state-Refines w = record { same_highest = refl; ascending = _; same_members = λ x. refl }
