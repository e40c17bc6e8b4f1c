-- ===== src/Transfer/FlowControl/Rate.antt =====
-- The limit on the requests of one second.
use hyper_share.Prelude.{
  Bool-cases, inl, inr, ℕ, ◌+◌, ◌-◌, ◌≤◌, ◌≡◌, refl, ◌∙◌, List, [], ◌∷◌, ◌++◌, ltb, leb,
  if◌then◌else◌, arith,
}
use hyper_share.Transfer.FlowControl.{
  FlowController, recent_count, drop_old, update_rate_limit, can_send_request, on_request_sent,
  second, new_flow_controller,
}

recent_count-later : (a b : ℕ) (ts : List ℕ) → a ≤ b → recent_count b ts ≤ recent_count a ts
unfolding recent_count
recent_count-later a b [] h = omega arith
recent_count-later a b (t ∷ ts) h = ground (arith, recent_count-later a b ts h)

recent_count-append :
    (a t : ℕ) (ts : List ℕ)
    → recent_count a (ts ++ t ∷ []) ≡ recent_count a ts + (if leb a t then 1 else 0)
unfolding recent_count
recent_count-append a t [] = ground arith
recent_count-append a t (u ∷ ts) = omega (arith, recent_count-append a t ts)

-- What is dropped is older than the cutoff.
recent_count-drop_old :
    (a b : ℕ) (ts : List ℕ) → a ≤ b → recent_count b (drop_old a ts) ≡ recent_count b ts
unfolding recent_count drop_old
recent_count-drop_old a b [] h = refl
recent_count-drop_old a b (t ∷ ts) h = ground (arith, recent_count-drop_old a b ts h)

-- The times at which an attempt reads the clock: for the limit, for the count, and when it sends.
pub record Clock : Type 0 where
  pub updated : ℕ
  pub counted : ℕ
  pub sent : ℕ

-- A caller who asks first and sends if it may, with the log of all that it has sent.
abbrev pub attempt : Clock → FlowController × List ℕ → FlowController × List ℕ
attempt t (c, log) =
    let (c', allowed) = can_send_request t.updated t.counted c in
    if allowed then (on_request_sent t.sent c', log ++ t.sent ∷ []) else (c', log)

-- The clock does not go back.
abbrev pub IsLater : ℕ → Clock → Type 0
IsLater now t = (now ≤ t.updated) × (t.updated ≤ t.counted) × (t.counted ≤ t.sent)

-- The queue agrees with the log on the last second, in which no more is sent than the limit.
pub record IsLimited (now : ℕ) (st : FlowController × List ℕ) : Type 0 where
  pub agrees :
      (cutoff : ℕ)
      → now - second ≤ cutoff
      → recent_count cutoff st.0.recent_requests ≡ recent_count cutoff st.1
  pub limited : recent_count (now - second) st.1 ≤ st.0.max_requests_per_second

attempt-IsLimited :
    (now : ℕ) (t : Clock) (c : FlowController) (log : List ℕ)
    → IsLater now t
    → IsLimited now (c, log)
    → IsLimited t.sent (attempt t (c, log))
unfolding can_send_request update_rate_limit on_request_sent
attempt-IsLimited now t c log (h, h', h'') v =
    let queue : List ℕ = drop_old (t.updated - second) c.recent_requests in
    let same : (cutoff : ℕ)
        → t.updated - second ≤ cutoff
        → recent_count cutoff queue ≡ recent_count cutoff log =
      λ cutoff le.
        recent_count-drop_old (t.updated - second) cutoff c.recent_requests le
        ∙ v.agrees cutoff (omega arith) in
    let here = same (t.counted - second) (omega arith) in
    let later = recent_count-later (t.counted - second) (t.sent - second) log (omega arith) in
    elim (Bool-cases (ltb (recent_count (t.counted - second) queue) c.max_requests_per_second)) [
      | inr full ↦ rw full (record {
        agrees = λ cutoff le. same cutoff (omega arith);
        limited = omega (
          arith,
          v.limited,
          recent_count-later (now - second) (t.sent - second) log (omega arith),
        );
      })
      | inl room ↦ rw room (record {
        agrees = λ cutoff le. omega (
          arith,
          same cutoff (omega arith),
          recent_count-append cutoff t.sent queue,
          recent_count-append cutoff t.sent log,
        );
        limited =
            ground (arith, room, here, later, recent_count-append (t.sent - second) t.sent log);
      })
    ]

-- Readings of the clock that do not go back, from `now` on.
abbrev pub Ascending : ℕ → List Clock → Type 0
Ascending now [] = Unit
Ascending now (t ∷ ts) = IsLater now t × Ascending t.sent ts

-- The time of the last attempt.
abbrev pub last_time : ℕ → List Clock → ℕ
last_time now [] = now
last_time now (t ∷ ts) = last_time t.sent ts

abbrev pub attempts : List Clock → FlowController × List ℕ → FlowController × List ℕ
attempts [] st = st
attempts (t ∷ ts) st = attempts ts (attempt t st)

-- A caller who asks before each request, with readings of the clock that do not go back, never has
-- more requests in the last second than the limit, counted over the log of all its requests although
-- the controller forgets the old ones, if that holds at the start and the limit is not changed; it holds after every attempt, since
-- the readings may stop anywhere.
pub attempts-IsLimited :
    (times : List Clock) (now : ℕ) (c : FlowController) (log : List ℕ)
    → Ascending now times
    → IsLimited now (c, log)
    → IsLimited (last_time now times) (attempts times (c, log))
attempts-IsLimited [] now c log h v = v
attempts-IsLimited (t ∷ ts) now c log (h, hs) v =
    attempts-IsLimited ts t.sent (attempt t (c, log)).0 (attempt t (c, log)).1 hs
      (attempt-IsLimited now t c log h v)

pub new_flow_controller-IsLimited : (now : ℕ) → IsLimited now (new_flow_controller now, [])
unfolding new_flow_controller recent_count
new_flow_controller-IsLimited now = record { agrees = λ cutoff le. refl; limited = omega arith }
