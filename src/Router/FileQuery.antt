-- ===== src/Router/FileQuery.antt =====
-- `FileQueryMessage` of src/network/peer_router.cpp.
use hyper_share.Prelude.{ℕ, ◌<◌, ◌^◌, ◌++◌, List, [], ◌∷◌, length, arith, All}
use hyper_share.Wire.{
  Bytes, Reader, ◌>>=◌, return, read_count, write_all, write_uint8, ok, err, Error,
}
use hyper_share.Wire.Laws.{Reads}
use hyper_share.Wire.Prefix.{Extends}
use hyper_share.Wire.Little.{
  write_uint32, write_size, write_string, read_uint32, read_string, little_fields, little_prefixes,
}
use hyper_share.Protocol.Payload.{MessagePayload}

pub record FileQueryMessage : Type 0 where
  pub file_id : Bytes
  pub query_hash : Bytes
  pub source_peer_id : ℕ
  pub query_id : ℕ
  pub hop_count : ℕ
  pub search_terms : List Bytes

unfoldable pub serialize : FileQueryMessage → Bytes
serialize msg =
    write_string msg.file_id
    ++ (write_string msg.query_hash
        ++ (write_uint32 msg.source_peer_id
            ++ (write_uint32 msg.query_id
                ++ (write_uint8 msg.hop_count
                    ++ (write_size (length msg.search_terms)
                        ++ write_all write_string msg.search_terms)))))

-- `if (offset >= data.size()) throw ...; msg.hop_count = data[offset++];`
unfoldable pub read_hop_count : Reader ℕ
read_hop_count (byte ∷ rest) = ok (byte, rest)
read_hop_count [] = err Error.hop_count

pub Reads-hop_count : (v : ℕ) → v < 2 ^ 8 → Reads read_hop_count (write_uint8 v) v
unfolding read_hop_count write_uint8
Reads-hop_count v h = record { reads = λ rest. ground arith }

pub Extends-hop_count : Extends read_hop_count
unfolding read_hop_count
Extends-hop_count = record { extends = λ s t s' b h. ground arith }

unfoldable pub read : Reader FileQueryMessage
read = do
  file_id ← read_string
  query_hash ← read_string
  source_peer_id ← read_uint32
  query_id ← read_uint32
  hop_count ← read_hop_count
  term_count ← read_uint32
  search_terms ← read_count term_count read_string
  return (record {
    file_id = file_id;
    query_hash = query_hash;
    source_peer_id = source_peer_id;
    query_id = query_id;
    hop_count = hop_count;
    search_terms = search_terms;
  })

-- The ranges of the fields' C++ types.
pub record IsValid (msg : FileQueryMessage) : Type 0 where
  pub file_id_range : length msg.file_id < 2 ^ 32
  pub query_hash_range : length msg.query_hash < 2 ^ 32
  pub source_peer_id_range : msg.source_peer_id < 2 ^ 32
  pub query_id_range : msg.query_id < 2 ^ 32
  pub hop_count_range : msg.hop_count < 2 ^ 8
  pub terms_range : length msg.search_terms < 2 ^ 32
  pub each_term_range : All (λ (x : Bytes). length x < 2 ^ 32) msg.search_terms

pub read-serialize : (msg : FileQueryMessage) → IsValid msg → Reads read (serialize msg) msg
unfolding read serialize
read-serialize msg v = search (little_fields, Reads-hop_count) depth 14

pub read-Extends : Extends read
unfolding read
read-Extends = search (little_prefixes, Extends-hop_count) depth 14

abbrev pub payload : MessagePayload FileQueryMessage
payload = record {
  serialize = serialize;
  read = read;
  IsValid = IsValid;
  carried = λ msg. msg;
  read-serialize = read-serialize;
  read-Extends = read-Extends;
}
