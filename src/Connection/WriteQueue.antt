-- ===== src/Connection/WriteQueue.antt =====
-- The write queue of a connection under any order of sends, completions and closes.
use hyper_share.Prelude.{
  ℕ, zero, suc, ◌≡◌, refl, ◌∙◌, ap, length, append_assoc, append-nil, arith, List, [], ◌∷◌, ◌++◌,
  Bool-cases, true, false, ◌⊎◌, inl, inr,
}
use hyper_share.Wire.{Bytes}
use hyper_share.Protocol.Header.{MessageHeader}
use hyper_share.Connection.{
  Connection, new_connection, null, tail, front_of, is_down, is_active, frame, send_message,
  write_done, write_failed, close,
}

-- What the environment does, with the buffers accepted so far. A completion comes only for a write
-- that was started.
pub data Reach : Connection → List Bytes → Type 0 where
  start : Reach new_connection []
  sends :
      {c : Connection} {sent : List Bytes} (header : MessageHeader) (payload : Bytes)
      → Reach c sent
      → is_active c.state ≡ true
      → Reach (send_message header payload c) (sent ++ (frame header payload ∷ []))
  refused :
      {c : Connection} {sent : List Bytes} (header : MessageHeader) (payload : Bytes)
      → Reach c sent
      → is_active c.state ≡ false
      → Reach (send_message header payload c) sent
  completes :
      {c : Connection} {sent : List Bytes}
      → Reach c sent
      → c.write_in_progress ≡ true
      → Reach (write_done c) sent
  fails :
      {c : Connection} {sent : List Bytes}
      → Reach c sent
      → c.write_in_progress ≡ true
      → Reach (write_failed c) sent
  closes : {c : Connection} {sent : List Bytes} → Reach c sent → Reach (close c) sent

pub record Inv (c : Connection) (sent : List Bytes) : Type 0 where
  pub busy : c.write_in_progress ≡ true → null c.write_queue ≡ false
  pub busy_fifo : c.write_in_progress ≡ true → c.started ++ tail c.write_queue ≡ sent
  pub idle : is_active c.state ≡ true → c.write_in_progress ≡ false → c.write_queue ≡ []
  pub idle_fifo : is_active c.state ≡ true → c.write_in_progress ≡ false → c.started ≡ sent
  pub order : (rest : List Bytes) × (c.started ++ rest ≡ sent)
  pub once :
      ((is_active c.state ≡ true) × (c.disconnects ≡ 0))
      ⊎ ((is_down c.state ≡ true) × (c.disconnects ≡ 1))

tail-append : (q r : List Bytes) → null q ≡ false → tail (q ++ r) ≡ tail q ++ r
tail-append [] r h = cc
tail-append (x ∷ q) r h = refl

null-append : (q r : List Bytes) → null q ≡ false → null (q ++ r) ≡ false
null-append [] r h = cc
null-append (x ∷ q) r h = refl

front_of-append-tail : (q : List Bytes) → null q ≡ false → front_of q ++ tail q ≡ q
front_of-append-tail [] h = cc
front_of-append-tail (x ∷ q) h = refl

send_busy :
    (c : Connection) (sent : List Bytes) (header : MessageHeader) (payload : Bytes)
    → Inv c sent
    → is_active c.state ≡ true
    → c.write_in_progress ≡ true
    → Inv (send_message header payload c) (sent ++ (frame header payload ∷ []))
unfolding send_message
send_busy c sent header payload v a p =
    let f : List Bytes = frame header payload ∷ [] in
    let e : send_message header payload c ≡ record c { write_queue = c.write_queue ++ f } =
      ground (arith, v.busy p) in
    let all : (c.started ++ tail (c.write_queue ++ f)) ≡ sent ++ f =
      rw (tail-append c.write_queue f (v.busy p), ← append_assoc, v.busy_fifo p) refl in
    rw e (record {
      busy = λ _. null-append c.write_queue f (v.busy p);
      busy_fifo = λ _. all;
      idle = λ _ h. ground (arith, p, h);
      idle_fifo = λ _ h. ground (arith, p, h);
      order = (tail (c.write_queue ++ f), all);
      once = v.once;
    })

send_idle :
    (c : Connection) (sent : List Bytes) (header : MessageHeader) (payload : Bytes)
    → Inv c sent
    → is_active c.state ≡ true
    → c.write_in_progress ≡ false
    → Inv (send_message header payload c) (sent ++ (frame header payload ∷ []))
unfolding send_message
send_idle c sent header payload v a p =
    let f : List Bytes = frame header payload ∷ [] in
    let e : send_message header payload c
        ≡ record c { write_queue = f; write_in_progress = true; started = sent ++ f } =
      ground (arith, v.idle a p, v.idle_fifo a p) in
    rw e (record {
      busy = λ _. refl;
      busy_fifo = λ _. append-nil (sent ++ f);
      idle = λ _ h. cc;
      idle_fifo = λ _ h. cc;
      order = ([], append-nil (sent ++ f));
      once = v.once;
    })

write_done-Inv :
    (c : Connection) (sent : List Bytes)
    → Inv c sent
    → c.write_in_progress ≡ true
    → Inv (write_done c) sent
unfolding write_done
write_done-Inv c sent v p = elim (Bool-cases (null (tail c.write_queue))) [
  | inl last ↦
      let e : write_done c
          ≡ record c { write_queue = []; write_in_progress = false; started = sent } =
        ground (arith, last, v.busy_fifo p, append-nil c.started) in
      rw e (record {
        busy = λ h. cc;
        busy_fifo = λ h. cc;
        idle = λ _ _. refl;
        idle_fifo = λ _ _. refl;
        order = ([], append-nil sent);
        once = v.once;
      })
  | inr more ↦
      let q : List Bytes = tail c.write_queue in
      let e : write_done c ≡ record c { write_queue = q; started = c.started ++ front_of q } =
        ground (arith, more, p) in
      let all : (c.started ++ front_of q) ++ tail q ≡ sent =
        append_assoc c.started (front_of q) (tail q)
        ∙ ap (◌++◌ c.started) (front_of-append-tail q more)
        ∙ v.busy_fifo p in
      rw e (record {
        busy = λ _. more;
        busy_fifo = λ _. all;
        idle = λ _ h. ground (arith, p, h);
        idle_fifo = λ _ h. ground (arith, p, h);
        order = (tail q, all);
        once = v.once;
      })
]

close-Inv : (c : Connection) (sent : List Bytes) → Inv c sent → Inv (close c) sent
unfolding close
close-Inv c sent v = ground (arith, v)

write_failed-Inv : (c : Connection) (sent : List Bytes) → Inv c sent → Inv (write_failed c) sent
unfolding write_failed
write_failed-Inv c sent v = ground (arith, v)

new_connection-Inv : Inv new_connection []
unfolding new_connection
new_connection-Inv = record {
  busy = λ h. cc;
  busy_fifo = λ h. cc;
  idle = λ _ _. refl;
  idle_fifo = λ _ _. refl;
  order = ([], refl);
  once = inl (refl, refl);
}

Reach-Inv : {c : Connection} {sent : List Bytes} → Reach c sent → Inv c sent
unfolding send_message
Reach-Inv start = new_connection-Inv
Reach-Inv (sends {c} {sent} header payload r a) = elim (Bool-cases c.write_in_progress) [
  | inl p ↦ send_busy c sent header payload (Reach-Inv r) a p
  | inr p ↦ send_idle c sent header payload (Reach-Inv r) a p
]
Reach-Inv (refused {c} {sent} header payload r a) = rw (a, send_message) (Reach-Inv r)
Reach-Inv (completes {c} {sent} r p) = write_done-Inv c sent (Reach-Inv r) p
Reach-Inv (fails {c} {sent} r p) = write_failed-Inv c sent (Reach-Inv r)
Reach-Inv (closes {c} {sent} r) = close-Inv c sent (Reach-Inv r)

-- Whatever the order of sends, completions, failures and closes: the buffers given to the socket
-- are the first of those accepted, in order and each once, and the disconnect handler runs once at
-- most, just when the connection has left its active states.
pub Reach-order :
    {c : Connection} {sent : List Bytes}
    → Reach c sent
    → ((rest : List Bytes) × (c.started ++ rest ≡ sent))
      × (((is_active c.state ≡ true) × (c.disconnects ≡ 0))
          ⊎ ((is_down c.state ≡ true) × (c.disconnects ≡ 1)))
Reach-order r = ((Reach-Inv r).order, (Reach-Inv r).once)

unfoldable pub complete_writes : ℕ → Connection → Connection
unfolding write_done
complete_writes zero c = c
complete_writes (suc n) c = complete_writes n (write_done c)

length-write_done :
    (c : Connection)
    → (length (write_done c).write_queue ≡ length (tail c.write_queue))
      × ((write_done c).state ≡ c.state)
unfolding write_done
length-write_done c = ground arith

in_progress_of_queued :
    (c : Connection) (sent : List Bytes) (n : ℕ)
    → Inv c sent
    → is_active c.state ≡ true
    → length c.write_queue ≡ suc n
    → (c.write_in_progress ≡ true) × (length (tail c.write_queue) ≡ n)
in_progress_of_queued c sent n v a h = ground (arith, v)

complete_writes-Inv :
    (n : ℕ) (c : Connection) (sent : List Bytes)
    → Inv c sent
    → is_active c.state ≡ true
    → length c.write_queue ≡ n
    → ((complete_writes n c).started ≡ sent) × ((complete_writes n c).write_queue ≡ [])
unfolding complete_writes
complete_writes-Inv zero c sent v a h = ground (arith, v)
complete_writes-Inv (suc n) c sent v a h =
    let (p, l) = in_progress_of_queued c sent n v a h in
    let (l', s) = length-write_done c in
    complete_writes-Inv n (write_done c) sent (write_done-Inv c sent v p) (ap is_active s ∙ a)
      (l' ∙ l)

-- While the connection is active, as many completions as there are buffers in the queue bring every
-- accepted buffer to the socket, in order, and leave the queue empty.
pub complete_writes-Reach :
    {c : Connection} {sent : List Bytes}
    → Reach c sent
    → is_active c.state ≡ true
    → ((complete_writes (length c.write_queue) c).started ≡ sent)
      × ((complete_writes (length c.write_queue) c).write_queue ≡ [])
complete_writes-Reach {c} {sent} r a = complete_writes-Inv _ c sent (Reach-Inv r) a refl
