-- ===== src/Router/RouteUpdate.antt =====
-- `RouteUpdateMessage` of src/network/peer_router.cpp. A point in time is its number of nanoseconds
-- since the clock's epoch, and goes into a message in milliseconds; a score goes in millionths.
use hyper_share.Prelude.{
  ℕ, ◌+◌, ◌*◌, ◌/◌, ◌%◌, ◌<◌, ◌≡◌, ◌^◌, ◌++◌, List, [], ◌∷◌, length, arith, All, map,
}
use hyper_share.Wire.{
  Bytes, Reader, ◌>>=◌, return, read_count, write_all, write_uint8, write_uint16, ok, err, Error,
}
use hyper_share.Wire.Laws.{Reads, Reads-bind, Reads-last, Reads-return, Reads-count_carried}
use hyper_share.Wire.Prefix.{Extends}
use hyper_share.Wire.Little.{
  write_uint32, write_size, write_string, write_halves, read_uint32, read_string, read_halves,
  little_fields, little_prefixes, Reads-uint32, Reads-halves, Reads-string,
}
use hyper_share.Router.FileQuery.{read_hop_count, Reads-hop_count, Extends-hop_count}
use hyper_share.Router.Double.{Double}
use hyper_share.Protocol.Payload.{MessagePayload}

pub record RoutingPeerInfo (F : Type 0) : Type 0 where
  pub peer_id : ℕ
  pub ip_address : Bytes
  pub port : ℕ
  pub last_seen : ℕ
  pub hop_count : ℕ
  pub next_hop_peer_id : ℕ
  pub reliability_score : F
  pub bandwidth_estimate : ℕ

pub record RouteUpdateMessage (F : Type 0) : Type 0 where
  pub source_peer_id : ℕ
  pub peer_updates : List (RoutingPeerInfo F)
  pub sequence_number : ℕ
  pub hop_count : ℕ

-- `duration_cast<milliseconds>(time_since_epoch).count()` in two halves.
unfoldable pub write_time : ℕ → Bytes
write_time time = write_halves (time / 1000000)

-- `time_point(milliseconds(ms))`. A product that a signed 64-bit number does not hold is undefined in
-- C++; here it wraps.
pub read_time : Reader ℕ
read_time = do ms ← read_halves; return (ms * 1000000 % 2 ^ 64)

-- What a message carries of a time.
abbrev pub whole_ms : ℕ → ℕ
whole_ms time = time / 1000000 * 1000000

pub Reads-time : (v : ℕ) → v < 2 ^ 63 → Reads read_time (write_time v) (whole_ms v)
unfolding read_time write_time
Reads-time v h =
    let e : v / 1000000 * 1000000 % 2 ^ 64 ≡ whole_ms v = omega arith in
    Reads-last _ _ _ _ _ (Reads-halves (v / 1000000) (omega arith))
      (rw e (Reads-return (whole_ms v)))

pub Extends-time : Extends read_time
unfolding read_time
Extends-time = search little_prefixes depth 14

read_port : Reader ℕ
read_port (a ∷ b ∷ rest) = ok (a * 2 ^ 8 + b, rest)
read_port rest = err Error.port

read_peer_hop_count : Reader ℕ
read_peer_hop_count (byte ∷ rest) = ok (byte, rest)
read_peer_hop_count [] = err Error.peer_hop_count

Reads-port : (v : ℕ) → v < 2 ^ 16 → Reads read_port (write_uint16 v) v
unfolding read_port write_uint16
Reads-port v h = record { reads = λ rest. ground arith }

Extends-port : Extends read_port
unfolding read_port
Extends-port = record { extends = λ s t s' b h. ground arith }

Reads-peer_hop_count : (v : ℕ) → v < 2 ^ 8 → Reads read_peer_hop_count (write_uint8 v) v
unfolding read_peer_hop_count write_uint8
Reads-peer_hop_count v h = record { reads = λ rest. ground arith }

Extends-peer_hop_count : Extends read_peer_hop_count
unfolding read_peer_hop_count
Extends-peer_hop_count = record { extends = λ s t s' b h. ground arith }

module _ {F : Type 0} (d : Double F) where
  -- `static_cast<std::uint32_t>(score * 1000000)` and `static_cast<double>(fp) / 1000000.0`
  abbrev pub to_millionths : F → ℕ
  to_millionths score = d.truncate (d.mul score (d.of_nat 1000000))

  abbrev pub of_millionths : ℕ → F
  of_millionths fp = d.div (d.of_nat fp) (d.of_nat 1000000)

  unfoldable pub write_score : F → Bytes
  write_score score = write_uint32 (to_millionths score)

  pub read_score : Reader F
  read_score = do fp ← read_uint32; return (of_millionths fp)

  -- What a message carries of a score.
  abbrev pub whole_millionths : F → F
  whole_millionths score = of_millionths (to_millionths score)

  pub Reads-score :
      (v : F) → to_millionths v < 2 ^ 32 → Reads read_score (write_score v) (whole_millionths v)
  unfolding read_score write_score
  Reads-score v h =
      Reads-last _ _ _ _ _ (Reads-uint32 (to_millionths v) h) (Reads-return (whole_millionths v))

  pub Extends-score : Extends read_score
  unfolding read_score
  Extends-score = search little_prefixes depth 14

  unfoldable pub write_peer : RoutingPeerInfo F → Bytes
  write_peer peer =
      write_uint32 peer.peer_id
      ++ (write_string peer.ip_address
          ++ (write_uint16 peer.port
              ++ (write_time peer.last_seen
                  ++ (write_uint8 peer.hop_count
                      ++ (write_uint32 peer.next_hop_peer_id
                          ++ (write_score peer.reliability_score
                              ++ write_halves peer.bandwidth_estimate))))))

  unfoldable pub serialize : RouteUpdateMessage F → Bytes
  serialize msg =
      write_uint32 msg.source_peer_id
      ++ (write_size (length msg.peer_updates)
          ++ (write_halves msg.sequence_number
              ++ (write_uint8 msg.hop_count ++ write_all write_peer msg.peer_updates)))

  read_peer : Reader (RoutingPeerInfo F)
  read_peer = do
    peer_id ← read_uint32
    ip_address ← read_string
    port ← read_port
    last_seen ← read_time
    hop_count ← read_peer_hop_count
    next_hop_peer_id ← read_uint32
    reliability_score ← read_score
    bandwidth_estimate ← read_halves
    return (record {
      peer_id = peer_id;
      ip_address = ip_address;
      port = port;
      last_seen = last_seen;
      hop_count = hop_count;
      next_hop_peer_id = next_hop_peer_id;
      reliability_score = reliability_score;
      bandwidth_estimate = bandwidth_estimate;
    })

  pub read : Reader (RouteUpdateMessage F)
  read = do
    source_peer_id ← read_uint32
    peer_count ← read_uint32
    sequence_number ← read_halves
    hop_count ← read_hop_count
    peer_updates ← read_count peer_count read_peer
    return (record {
      source_peer_id = source_peer_id;
      peer_updates = peer_updates;
      sequence_number = sequence_number;
      hop_count = hop_count;
    })

  -- The ranges of the fields' C++ types; a time is a signed 64-bit number, and a score has its
  -- millionths in 32 bits.
  pub record IsPeer (peer : RoutingPeerInfo F) : Type 0 where
    pub peer_id_range : peer.peer_id < 2 ^ 32
    pub ip_address_range : length peer.ip_address < 2 ^ 32
    pub port_range : peer.port < 2 ^ 16
    pub last_seen_range : peer.last_seen < 2 ^ 63
    pub hop_count_range : peer.hop_count < 2 ^ 8
    pub next_hop_range : peer.next_hop_peer_id < 2 ^ 32
    pub score_range : to_millionths peer.reliability_score < 2 ^ 32
    pub bandwidth_range : peer.bandwidth_estimate < 2 ^ 64

  pub record IsValid (msg : RouteUpdateMessage F) : Type 0 where
    pub source_peer_id_range : msg.source_peer_id < 2 ^ 32
    pub peers_range : length msg.peer_updates < 2 ^ 32
    pub sequence_number_range : msg.sequence_number < 2 ^ 64
    pub hop_count_range : msg.hop_count < 2 ^ 8
    pub each_peer : All IsPeer msg.peer_updates

  -- A message carries times in whole milliseconds and scores in whole millionths.
  abbrev pub carried_peer : RoutingPeerInfo F → RoutingPeerInfo F
  carried_peer peer = record peer {
    last_seen = whole_ms peer.last_seen;
    reliability_score = whole_millionths peer.reliability_score;
  }

  abbrev pub carried : RouteUpdateMessage F → RouteUpdateMessage F
  carried msg = record msg { peer_updates = map carried_peer msg.peer_updates }

  Reads-peer :
      (peer : RoutingPeerInfo F)
      → IsPeer peer
      → Reads read_peer (write_peer peer) (carried_peer peer)
  unfolding read_peer write_peer
  Reads-peer peer v = Reads-bind _ _ _ _ _ _ (Reads-uint32 peer.peer_id v.peer_id_range) (
      Reads-bind _ _ _ _ _ _ (Reads-string peer.ip_address v.ip_address_range) (
        Reads-bind _ _ _ _ _ _ (Reads-port peer.port v.port_range) (
          Reads-bind _ _ _ _ _ _ (Reads-time peer.last_seen v.last_seen_range) (
            Reads-bind _ _ _ _ _ _ (Reads-peer_hop_count peer.hop_count v.hop_count_range) (
              Reads-bind _ _ _ _ _ _ (Reads-uint32 peer.next_hop_peer_id v.next_hop_range) (
                Reads-bind _ _ _ _ _ _ (Reads-score peer.reliability_score v.score_range) (
                  Reads-last _ _ _ _ _ (Reads-halves peer.bandwidth_estimate v.bandwidth_range)
                    (Reads-return _))))))))

  Reads-peers :
      (xs : List (RoutingPeerInfo F))
      → All IsPeer xs
      → Reads (read_count (length xs) read_peer) (write_all write_peer xs) (map carried_peer xs)
  Reads-peers = Reads-count_carried IsPeer read_peer write_peer carried_peer Reads-peer

  Extends-peer : Extends read_peer
  unfolding read_peer
  Extends-peer =
      search (little_prefixes, Extends-port, Extends-peer_hop_count, Extends-time, Extends-score)
        depth 20

  pub read-serialize :
      (msg : RouteUpdateMessage F) → IsValid msg → Reads read (serialize msg) (carried msg)
  unfolding read serialize
  read-serialize msg v = search (little_fields, Reads-hop_count, Reads-peers) depth 14

  pub read-Extends : Extends read
  unfolding read
  read-Extends = search (little_prefixes, Extends-hop_count, Extends-peer) depth 14

  abbrev pub payload : MessagePayload (RouteUpdateMessage F)
  payload = record {
    serialize = serialize;
    read = read;
    IsValid = IsValid;
    carried = carried;
    read-serialize = read-serialize;
    read-Extends = read-Extends;
  }
