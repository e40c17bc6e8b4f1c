-- ===== src/MessageQueue/Runs.antt =====
-- Runs of a queue of eight messages.
use hyper_share.Prelude.{◌≡◌, [], ◌∷◌, ◌++◌, some, arith}
use hyper_share.Protocol.Header.{MessageHeader, new_header}
use hyper_share.MessageQueue.{MessageQueue, push, queued}
use hyper_share.MessageQueue.Laws.{drain, IsBounded, drain-push}

abbrev header : MessageHeader
header = new_header 5 6 3 2

abbrev two_queued : MessageQueue
two_queued = record {
  normal_queue = queued header (1 ∷ []) 10 ∷ [];
  priority_queue = queued header (2 ∷ []) 20 ∷ [];
  max_size = 8;
}

drain-push_example :
    (q' : MessageQueue) × (push header (3 ∷ []) 30 two_queued ≡ some q')
    × (drain q' ≡ drain two_queued ++ (queued header (3 ∷ []) 30 ∷ []))
drain-push_example = drain-push header (3 ∷ []) 30 two_queued (omega arith)

two_queued-IsBounded : IsBounded two_queued
two_queued-IsBounded = record {
  roomy = omega arith;
  normal_bound = omega arith;
  priority_bound = omega arith;
}
