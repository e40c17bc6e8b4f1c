-- ===== src/Protocol/Payload.antt =====
-- The concept `MessagePayload` of include/hypershare/network/protocol.hpp: what a connection asks
-- of the messages that it carries. The laws are proved by each message.
use hyper_share.Prelude.{ℕ, ◌≡◌, ◌∷◌, ◌++◌}
use hyper_share.Wire.{Bytes, Error, Reader, Result, ok, err, run}
use hyper_share.Wire.Laws.{Reads, run-Reads}
use hyper_share.Wire.Prefix.{Extends, err_of_prefix}

pub record MessagePayload (T : Type 0) : Type 1 where
  pub serialize : T → Bytes
  pub read : Reader T
  -- The ranges of the fields' C++ types.
  pub IsValid : T → Type 0
  -- What the bytes carry of a message.
  pub carried : T → T
  pub read-serialize : (msg : T) → IsValid msg → Reads read (serialize msg) (carried msg)
  pub read-Extends : Extends read

module _ {T : Type 0} (payload : MessagePayload T) where
  open payload use {serialize, read, IsValid, carried, read-serialize, read-Extends}

  unfoldable pub deserialize : Bytes → Result T
  deserialize data_span = run read data_span

  -- Of a serialized message with fields in the ranges of their types, what the bytes carry is read
  -- back; bytes behind it are ignored.
  pub deserialize-serialize_payload :
      (msg : T) (rest : Bytes)
      → IsValid msg
      → deserialize (serialize msg ++ rest) ≡ ok (carried msg)
  unfolding deserialize
  deserialize-serialize_payload msg rest v = run-Reads (read-serialize msg v) rest

  -- On any proper prefix of a serialized message with fields in the ranges of their types,
  -- `deserialize` throws.
  pub deserialize_prefix_payload :
      (msg : T) (front back : Bytes) (x : ℕ)
      → IsValid msg
      → serialize msg ≡ front ++ x ∷ back
      → (e : Error) × (deserialize front ≡ err e)
  unfolding deserialize
  deserialize_prefix_payload msg front back x v h =
      err_of_prefix read-Extends (read-serialize msg v) front back x h
