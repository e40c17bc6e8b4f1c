-- ===== src/Router/FileQueryResponse.antt =====
-- `FileQueryResponseMessage` of src/network/peer_router.cpp.
use hyper_share.Prelude.{ℕ, ◌<◌, ◌^◌, ◌++◌, List, length, All, map}
use hyper_share.Wire.{Bytes, Reader, ◌>>=◌, return, read_count, write_all}
use hyper_share.Wire.Laws.{Reads, Reads-count_carried, Reads-bind, Reads-last, Reads-return}
use hyper_share.Wire.Prefix.{Extends}
use hyper_share.Wire.Little.{
  write_uint32, write_size, write_string, write_halves, read_uint32, read_string, read_halves,
  Reads-string, Reads-uint32, Reads-halves, little_fields, little_prefixes,
}
use hyper_share.Router.RouteUpdate.{
  write_time, read_time, Reads-time, Extends-time, write_score, read_score, Reads-score,
  Extends-score, to_millionths, whole_ms, whole_millionths,
}
use hyper_share.Router.Double.{Double}
use hyper_share.Protocol.Payload.{MessagePayload}

pub record FileLocation (F : Type 0) : Type 0 where
  pub file_id : Bytes
  pub peer_id : ℕ
  pub file_hash : Bytes
  pub file_size : ℕ
  pub announced_at : ℕ
  pub availability_score : F

pub record FileQueryResponseMessage (F : Type 0) : Type 0 where
  pub query_id : ℕ
  pub file_locations : List (FileLocation F)
  pub responding_peer_id : ℕ

module _ {F : Type 0} (d : Double F) where
  unfoldable pub write_location : FileLocation F → Bytes
  write_location location =
      write_string location.file_id
      ++ (write_uint32 location.peer_id
          ++ (write_string location.file_hash
              ++ (write_halves location.file_size
                  ++ (write_time location.announced_at
                      ++ write_score d location.availability_score))))

  unfoldable pub serialize : FileQueryResponseMessage F → Bytes
  serialize msg =
      write_uint32 msg.query_id
      ++ (write_uint32 msg.responding_peer_id
          ++ (write_size (length msg.file_locations)
              ++ write_all write_location msg.file_locations))

  read_location : Reader (FileLocation F)
  read_location = do
    file_id ← read_string
    peer_id ← read_uint32
    file_hash ← read_string
    file_size ← read_halves
    announced_at ← read_time
    availability_score ← read_score d
    return (record {
      file_id = file_id;
      peer_id = peer_id;
      file_hash = file_hash;
      file_size = file_size;
      announced_at = announced_at;
      availability_score = availability_score;
    })

  pub read : Reader (FileQueryResponseMessage F)
  read = do
    query_id ← read_uint32
    responding_peer_id ← read_uint32
    location_count ← read_uint32
    file_locations ← read_count location_count read_location
    return (record {
      query_id = query_id;
      file_locations = file_locations;
      responding_peer_id = responding_peer_id;
    })

  -- The ranges of the fields' C++ types; a time is a signed 64-bit number, and a score has its
  -- millionths in 32 bits.
  pub record IsLocation (location : FileLocation F) : Type 0 where
    pub file_id_range : length location.file_id < 2 ^ 32
    pub peer_id_range : location.peer_id < 2 ^ 32
    pub file_hash_range : length location.file_hash < 2 ^ 32
    pub file_size_range : location.file_size < 2 ^ 64
    pub announced_at_range : location.announced_at < 2 ^ 63
    pub score_range : to_millionths d location.availability_score < 2 ^ 32

  pub record IsValid (msg : FileQueryResponseMessage F) : Type 0 where
    pub query_id_range : msg.query_id < 2 ^ 32
    pub responding_peer_id_range : msg.responding_peer_id < 2 ^ 32
    pub locations_range : length msg.file_locations < 2 ^ 32
    pub each_location : All IsLocation msg.file_locations

  -- A message carries times in whole milliseconds and scores in whole millionths.
  abbrev pub carried_location : FileLocation F → FileLocation F
  carried_location location = record location {
    announced_at = whole_ms location.announced_at;
    availability_score = whole_millionths d location.availability_score;
  }

  abbrev pub carried : FileQueryResponseMessage F → FileQueryResponseMessage F
  carried msg = record msg { file_locations = map carried_location msg.file_locations }

  Reads-location :
      (location : FileLocation F)
      → IsLocation location
      → Reads read_location (write_location location) (carried_location location)
  unfolding read_location write_location
  Reads-location location v =
      Reads-bind _ _ _ _ _ _ (Reads-string location.file_id v.file_id_range) (
        Reads-bind _ _ _ _ _ _ (Reads-uint32 location.peer_id v.peer_id_range) (
          Reads-bind _ _ _ _ _ _ (Reads-string location.file_hash v.file_hash_range) (
            Reads-bind _ _ _ _ _ _ (Reads-halves location.file_size v.file_size_range) (
              Reads-bind _ _ _ _ _ _ (Reads-time location.announced_at v.announced_at_range) (
                Reads-last _ _ _ _ _ (Reads-score d location.availability_score v.score_range)
                  (Reads-return _))))))

  Reads-locations :
      (xs : List (FileLocation F))
      → All IsLocation xs
      → Reads
          (read_count (length xs) read_location)
          (write_all write_location xs)
          (map carried_location xs)
  Reads-locations =
      Reads-count_carried IsLocation read_location write_location carried_location Reads-location

  Extends-location : Extends read_location
  unfolding read_location
  Extends-location = search (little_prefixes, Extends-time, Extends-score) depth 20

  pub read-serialize :
      (msg : FileQueryResponseMessage F) → IsValid msg → Reads read (serialize msg) (carried msg)
  unfolding read serialize
  read-serialize msg v = search (little_fields, Reads-locations) depth 14

  pub read-Extends : Extends read
  unfolding read
  read-Extends = search (little_prefixes, Extends-location) depth 14

  abbrev pub payload : MessagePayload (FileQueryResponseMessage F)
  payload = record {
    serialize = serialize;
    read = read;
    IsValid = IsValid;
    carried = carried;
    read-serialize = read-serialize;
    read-Extends = read-Extends;
  }
