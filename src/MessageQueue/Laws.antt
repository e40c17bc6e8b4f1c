-- ===== src/MessageQueue/Laws.antt =====
-- The bounds of the queue, the order in which messages leave it, and the removal of old ones.
use hyper_share.Prelude.{
  ℕ, zero, suc, ◌+◌, ◌/◌, ◌≤◌, ◌<◌, ◌≡◌, ◌↔◌, refl, ap, sym, ◌∙◌, Bool, List, [], ◌∷◌, ◌++◌, none,
  some, length, leb, if◌then◌else◌, arith, append-nil, append_assoc, length-append, inl, inr,
  Bool-cases,
}
use hyper_share.Wire.{Bytes}
use hyper_share.Protocol.Header.{MessageHeader}
use hyper_share.MessageQueue.{
  QueuedMessage, MessageQueue, push_bounded, push, push_priority, pop, size, queued, is_young,
  clean_queue, cleanup_old_messages,
}

-- What `pop` gives until the queue is empty.
drain_loop : ℕ → MessageQueue → List QueuedMessage
unfolding pop
drain_loop zero q = []
drain_loop (suc n) q =
    let (msg, q') = pop q in elim msg [ none ↦ [] | some m ↦ m ∷ drain_loop n q' ]

pub drain : MessageQueue → List QueuedMessage
unfolding drain_loop size
drain q = drain_loop (size q) q

drain_loop_all :
    (n : ℕ) (ps ns : List QueuedMessage) (limit : ℕ)
    → n ≡ length ns + length ps
    → drain_loop n (record { normal_queue = ns; priority_queue = ps; max_size = limit }) ≡ ps ++ ns
unfolding drain_loop
drain_loop_all zero [] [] limit h = refl
drain_loop_all zero [] (m ∷ ns) limit h = absurd (omega arith)
drain_loop_all zero (m ∷ ps) ns limit h = absurd (omega arith)
drain_loop_all (suc n) [] [] limit h = absurd (omega arith)
drain_loop_all (suc n) [] (m ∷ ns) limit h = ap (◌∷◌ m) (drain_loop_all n [] ns limit (omega arith))
drain_loop_all (suc n) (m ∷ ps) ns limit h = ap (◌∷◌ m) (drain_loop_all n ps ns limit (omega arith))

drain_lem : (q : MessageQueue) → drain q ≡ q.priority_queue ++ q.normal_queue
unfolding drain
drain_lem q = drain_loop_all (size q) q.priority_queue q.normal_queue q.max_size refl

pub keep : (QueuedMessage → Bool) → List QueuedMessage → List QueuedMessage
keep p [] = []
keep p (m ∷ ms) = if p m then m ∷ keep p ms else keep p ms

clean_queue-keep :
    (now max_age : ℕ) (queue temp : List QueuedMessage)
    → clean_queue now max_age queue temp ≡ temp ++ keep (is_young now max_age) queue
unfolding clean_queue keep
clean_queue-keep now max_age [] temp = sym (append-nil temp)
clean_queue-keep now max_age (m ∷ queue) temp = ground (
  arith,
  clean_queue-keep now max_age queue temp,
  clean_queue-keep now max_age queue (temp ++ (m ∷ [])),
  append_assoc temp (m ∷ []) (keep (is_young now max_age) queue),
)

keep-append :
    (p : QueuedMessage → Bool) (xs ys : List QueuedMessage)
    → keep p (xs ++ ys) ≡ keep p xs ++ keep p ys
unfolding keep
keep-append p [] ys = refl
keep-append p (x ∷ xs) ys = ground (arith, keep-append p xs ys)

-- A cleanup removes just the messages that are too old: the rest leave the queue in the same order.
pub drain-cleanup_old_messages :
    (now max_age : ℕ) (q : MessageQueue)
    → drain (cleanup_old_messages now max_age q) ≡ keep (is_young now max_age) (drain q)
unfolding cleanup_old_messages
drain-cleanup_old_messages now max_age q = rw (
  drain_lem (cleanup_old_messages now max_age q),
  drain_lem q,
  keep-append (is_young now max_age) q.priority_queue q.normal_queue,
  clean_queue-keep now max_age q.priority_queue [],
  clean_queue-keep now max_age q.normal_queue [],
)

-- While there is room, a message pushed normally leaves the queue after all others.
pub drain-push :
    (header : MessageHeader) (payload : Bytes) (now : ℕ) (q : MessageQueue)
    → length q.normal_queue < q.max_size
    → (q' : MessageQueue) × (push header payload now q ≡ some q')
      × (drain q' ≡ drain q ++ (queued header payload now ∷ []))
unfolding push
drain-push header payload now q h =
    let m : List QueuedMessage = queued header payload now ∷ [] in
    let q' = record q { normal_queue = q.normal_queue ++ m } in
    (
      q',
      ground arith,
      drain_lem q'
          ∙ sym (append_assoc q.priority_queue q.normal_queue m)
          ∙ ap (λ l. l ++ m) (sym (drain_lem q)),
    )

-- While there is room, a message pushed with priority leaves the queue before every normal message and
-- after the priority messages that were there.
pub drain-push_priority :
    (header : MessageHeader) (payload : Bytes) (now : ℕ) (q : MessageQueue)
    → length q.priority_queue < q.max_size / 4
    → (q' : MessageQueue) × (push_priority header payload now q ≡ some q')
      × (drain q' ≡ q.priority_queue ++ (queued header payload now ∷ q.normal_queue))
unfolding push_priority
drain-push_priority header payload now q h =
    let m : List QueuedMessage = queued header payload now ∷ [] in
    let q' = record q { priority_queue = q.priority_queue ++ m } in
    (q', ground arith, drain_lem q' ∙ append_assoc q.priority_queue m q.normal_queue)

-- The bounds of the two queues, for a queue of four messages or more.
pub record IsBounded (q : MessageQueue) : Type 0 where
  pub roomy : 4 ≤ q.max_size
  pub normal_bound : length q.normal_queue ≤ q.max_size
  pub priority_bound : length q.priority_queue ≤ q.max_size / 4

push_bounded_lem :
    (limit : ℕ) (queue : List QueuedMessage) (msg : QueuedMessage)
    → 0 < limit
    → length queue ≤ limit
    → (queue' : List QueuedMessage) × (push_bounded limit queue msg ≡ some queue')
      × (length queue' ≤ limit)
unfolding push_bounded
push_bounded_lem limit [] msg p h = (msg ∷ [], ground arith, omega arith)
push_bounded_lem limit (m ∷ ms) msg p h = elim (Bool-cases (leb limit (length (m ∷ ms)))) [
  | inl full ↦ (ms ++ (msg ∷ []), rw full, omega (arith, length-append ms (msg ∷ [])))
  | inr room ↦ ((m ∷ ms) ++ (msg ∷ []), rw room, ground (arith, length-append ms (msg ∷ [])))
]

-- With room for four messages or more, both pushes succeed and keep both bounds.
pub push-IsBounded :
    (header : MessageHeader) (payload : Bytes) (now : ℕ) (q : MessageQueue)
    → IsBounded q
    → ((q' : MessageQueue) × (push header payload now q ≡ some q') × IsBounded q')
      × ((q' : MessageQueue) × (push_priority header payload now q ≡ some q') × IsBounded q')
unfolding push push_priority
push-IsBounded header payload now q v =
    let msg = queued header payload now in
    let (ns, e, b) =
      push_bounded_lem q.max_size q.normal_queue msg (omega (arith, v.roomy)) v.normal_bound in
    let (ps, e', b') =
      push_bounded_lem (q.max_size / 4) q.priority_queue msg (omega (arith, v.roomy))
        v.priority_bound in
    (
      (record q { normal_queue = ns }, rw (e, push), omega (arith, v, b)),
      (record q { priority_queue = ps }, rw (e', push_priority), omega (arith, v, b')),
    )

-- `push_priority` pops an empty `std::queue`, which is undefined, just when the queue was made for
-- less than four messages and holds no priority message.
pub push_priority-eq-none :
    (header : MessageHeader) (payload : Bytes) (now : ℕ) (q : MessageQueue)
    → (push_priority header payload now q ≡ none) ↔ ((q.max_size < 4) × (q.priority_queue ≡ []))
unfolding push_priority
push_priority-eq-none header payload now q = (λ h. ground arith, λ h. ground arith)
