-- ===== src/Messages/Runs.antt =====
-- Runs of a route update and a file announcement.
use hyper_share.Prelude.{ℕ, ◌≡◌, refl, [], ◌∷◌, ◌++◌, arith}
use hyper_share.Wire.{
  Bytes, Error, ok, err, write_uint32, write_uint64, write_size, write_string, write_bytes,
  write_all,
}
use hyper_share.Protocol.Payload.{deserialize}
use hyper_share.Protocol.FileAnnounce.{FileAnnounceMessage, IsValid, serialize}
use hyper_share.Router.Double.{whole_scores}
use hyper_share.Router.RouteUpdate.{RouteUpdateMessage}
use hyper_share.Router.RouteUpdate as RouteUpdate
use hyper_share.Messages.{
  route_update, file_announce, payload_of, deserialize-serialize_message,
  deserialize_prefix_message,
}

abbrev announced : FileAnnounceMessage
announced = record {
  file_id = b'i' ∷ b'd' ∷ [];
  filename = b'f' ∷ [];
  file_size = 70000;
  file_hash = b'0' ∷ b'a' ∷ [];
  tags = (b't' ∷ []) ∷ [] ∷ [];
}

announced-IsValid : IsValid announced
announced-IsValid = record {
  file_id_range = omega arith;
  filename_range = omega arith;
  file_size_range = omega arith;
  file_hash_range = omega arith;
  tags_range = omega arith;
  each_tag_range = (omega arith, (omega arith, tt));
}

-- A route that was seen after a millisecond and a half.
abbrev seen_at : ℕ → RouteUpdateMessage ℕ
seen_at time = record {
  source_peer_id = 2;
  peer_updates =
      record {
        peer_id = 3;
        ip_address = b'h' ∷ [];
        port = 8080;
        last_seen = time;
        hop_count = 1;
        next_hop_peer_id = 3;
        reliability_score = 1;
        bandwidth_estimate = 1000000;
      }
      ∷ [];
  sequence_number = 1;
  hop_count = 0;
}

seen-IsValid : RouteUpdate.IsValid whole_scores (seen_at 1500000)
seen-IsValid = record {
  source_peer_id_range = omega arith;
  peers_range = omega arith;
  sequence_number_range = omega arith;
  hop_count_range = omega arith;
  each_peer = (
    record {
      peer_id_range = omega arith;
      ip_address_range = omega arith;
      port_range = omega arith;
      last_seen_range = omega arith;
      hop_count_range = omega arith;
      next_hop_range = omega arith;
      score_range = omega arith;
      bandwidth_range = omega arith;
    },
    tt,
  );
}

deserialize-serialize_message_example :
    deserialize
      (payload_of (route_update ℕ whole_scores))
      (RouteUpdate.serialize whole_scores (seen_at 1500000) ++ 1 ∷ 2 ∷ [])
    ≡ ok (seen_at 1000000)
deserialize-serialize_message_example =
    deserialize-serialize_message (route_update ℕ whole_scores) (seen_at 1500000) (1 ∷ 2 ∷ [])
      seen-IsValid

-- The first six bytes and the rest, behind the last letter of the identifier.
abbrev rest_announced : Bytes
rest_announced =
    write_string (b'f' ∷ [])
    ++ (write_uint64 70000
        ++ (write_string (b'0' ∷ b'a' ∷ [])
            ++ (write_size 2 ++ write_all write_string ((b't' ∷ []) ∷ [] ∷ []))))

cut_announced : serialize announced ≡ (0 ∷ 0 ∷ 0 ∷ 2 ∷ b'i' ∷ []) ++ b'd' ∷ rest_announced
unfolding serialize write_string write_size write_uint32 write_bytes
cut_announced = refl

deserialize_prefix_message_example :
    (e : Error) × (deserialize (payload_of file_announce) (0 ∷ 0 ∷ 0 ∷ 2 ∷ b'i' ∷ []) ≡ err e)
deserialize_prefix_message_example =
    deserialize_prefix_message file_announce announced (0 ∷ 0 ∷ 0 ∷ 2 ∷ b'i' ∷ []) rest_announced
      b'd' announced-IsValid cut_announced
