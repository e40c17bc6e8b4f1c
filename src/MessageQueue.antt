-- ===== src/MessageQueue.antt =====
-- `MessageQueue` of src/network/message_handler.cpp. A queue is a list, its front first; the mutex
-- makes each call atomic. The time of a call, which the source takes from the steady clock, is an
-- argument. `pop()` on an empty `std::queue` is undefined behaviour: the call has no result then.
pub mod Laws
mod Runs
use hyper_share.Prelude.{
  ℕ, zero, suc, ◌+◌, ◌/◌, Bool, true, false, ◌&&◌, List, [], ◌∷◌, ◌++◌, Option, none, some, length,
  leb, if◌then◌else◌,
}
use hyper_share.Wire.{Bytes}
use hyper_share.Protocol.Header.{MessageHeader}

pub record QueuedMessage : Type 0 where
  pub header : MessageHeader
  pub payload : Bytes
  pub timestamp : ℕ
  pub retries : ℕ

pub record MessageQueue : Type 0 where
  pub normal_queue : List QueuedMessage
  pub priority_queue : List QueuedMessage
  pub max_size : ℕ

unfoldable pub new_queue : ℕ → MessageQueue
new_queue max_size = record { normal_queue = []; priority_queue = []; max_size = max_size }

abbrev pub null : List QueuedMessage → Bool
null [] = true
null (m ∷ ms) = false

-- `std::queue::pop`
drop_front : List QueuedMessage → Option (List QueuedMessage)
drop_front [] = none
drop_front (m ∷ ms) = some ms

-- A full queue loses its oldest message before the new one is put at its end.
push_bounded : ℕ → List QueuedMessage → QueuedMessage → Option (List QueuedMessage)
unfolding drop_front
push_bounded limit queue msg =
    if leb limit (length queue)
    then elim (drop_front queue) [ none ↦ none | some rest ↦ some (rest ++ (msg ∷ [])) ]
    else some (queue ++ (msg ∷ []))

abbrev pub queued : MessageHeader → Bytes → ℕ → QueuedMessage
queued header payload now = record {
  header = header;
  payload = payload;
  timestamp = now;
  retries = 0;
}

pub push : MessageHeader → Bytes → ℕ → MessageQueue → Option MessageQueue
unfolding push_bounded
push header payload now q =
    elim (push_bounded q.max_size q.normal_queue (queued header payload now)) [
      | none ↦ none
      | some queue ↦ some (record q { normal_queue = queue })
    ]

pub push_priority : MessageHeader → Bytes → ℕ → MessageQueue → Option MessageQueue
unfolding push_bounded
push_priority header payload now q =
    elim (push_bounded (q.max_size / 4) q.priority_queue (queued header payload now)) [
      | none ↦ none
      | some queue ↦ some (record q { priority_queue = queue })
    ]

unfoldable pub pop : MessageQueue → Option QueuedMessage × MessageQueue
pop q = elim q.priority_queue [
  | msg ∷ rest ↦ (some msg, record q { priority_queue = rest })
  | [] ↦ elim q.normal_queue [
    | msg ∷ rest ↦ (some msg, record q { normal_queue = rest })
    | [] ↦ (none, q)
  ]
]

unfoldable pub size : MessageQueue → ℕ
size q = length q.normal_queue + length q.priority_queue

unfoldable pub empty : MessageQueue → Bool
empty q = null q.normal_queue && null q.priority_queue

unfoldable pub clear : MessageQueue → MessageQueue
clear q = record q { normal_queue = []; priority_queue = [] }

-- `now - msg.timestamp <= max_age`, all three in the units of the clock.
abbrev pub is_young : ℕ → ℕ → QueuedMessage → Bool
is_young now max_age msg = leb now (msg.timestamp + max_age)

-- The loop of `clean_queue`, with `temp_queue`.
clean_queue : ℕ → ℕ → List QueuedMessage → List QueuedMessage → List QueuedMessage
clean_queue now max_age [] temp_queue = temp_queue
clean_queue now max_age (msg ∷ queue) temp_queue =
    clean_queue now max_age queue
      (if is_young now max_age msg then temp_queue ++ (msg ∷ []) else temp_queue)

pub cleanup_old_messages : ℕ → ℕ → MessageQueue → MessageQueue
unfolding clean_queue
cleanup_old_messages now max_age q = record q {
  normal_queue = clean_queue now max_age q.normal_queue [];
  priority_queue = clean_queue now max_age q.priority_queue [];
}
