-- ===== src/FileProtocol.antt =====
-- The file protocol, src/network/file_protocol.cpp: the frame of its messages, and what the messages
-- fill in.
pub mod Fields
pub mod FileAnnounce
pub mod FileRequest
pub mod FileResponse
pub mod ChunkRequest
pub mod ChunkData
pub mod ChunkAck
pub mod Exchange
mod Runs
use hyper_share.Prelude.{
  leb, length-take, ℕ, zero, suc, take-length, ◌+◌, ◌*◌, ◌%◌, ◌^◌, ◌<◌, ◌≡◌, refl, List, [], ◌∷◌,
  ◌++◌, length, take, ltb, ◌==◌, if◌then◌else◌, arith, ==_iff, length-append, take-length-append,
  Bool, Bool-cases, inl, inr, append-nil, true, false, ap, ◌∙◌, ◌/◌, ==_refl,
}
use hyper_share.Wire.{Bytes, Reader, Result, ok, err, run, byte_at}
use hyper_share.Wire.Laws.{Reads, run-Reads}
use hyper_share.Wire.Little.{write_uint32, write_size}

-- The type byte, the size of the payload and the payload.
unfoldable pub add_message_header : (type : ℕ) → Bytes → Bytes
add_message_header type payload = type % 256 ∷ (write_size (length payload) ++ payload)

unfoldable pub extract_payload : Bytes → Bytes
extract_payload (t ∷ a ∷ b ∷ c ∷ d ∷ rest) =
    let payload_size = a + b * 2 ^ 8 + c * 2 ^ 16 + d * 2 ^ 24 in
    if length rest == payload_size then take payload_size rest else []
extract_payload data_span = []

-- The type byte, or 0xFF.
unfoldable pub get_message_type : Bytes → ℕ
get_message_type [] = 0xFF
get_message_type (t ∷ rest) = t

unfoldable pub validate_message_size : (max_size : ℕ) → Bytes → Bool
validate_message_size max_size data_span = leb (length data_span) max_size

extract_payload-add_message_header :
    (type : ℕ) (payload : Bytes)
    → length payload < 2 ^ 32
    → extract_payload (add_message_header type payload) ≡ payload
unfolding extract_payload add_message_header write_size write_uint32
extract_payload-add_message_header type payload h =
    let n = length payload in
    let size : n % 2 ^ 32 / 1 % 256
          + n % 2 ^ 32 / 256 % 256 * 2 ^ 8
          + n % 2 ^ 32 / 65536 % 256 * 2 ^ 16
          + n % 2 ^ 32 / 16777216 % 256 * 2 ^ 24
        ≡ n =
      omega arith in
    rw (size, ==_refl n) (take-length payload)

extract_payload_behind :
    (type : ℕ) (payload : Bytes) (x : ℕ) (rest : Bytes)
    → length payload < 2 ^ 32
    → extract_payload (add_message_header type payload ++ x ∷ rest) ≡ []
unfolding extract_payload add_message_header write_size write_uint32
extract_payload_behind type payload x rest h = ground (arith, length-append payload (x ∷ rest))

-- A frame that was cut off, or that more bytes follow.
pub data Misframed (frame : Bytes) : Bytes → Type 0 where
  cut_off : (n : ℕ) → n < length frame → Misframed frame (take n frame)
  run_on : (x : ℕ) (rest : Bytes) → Misframed frame (frame ++ x ∷ rest)

extract_payload_cut_off :
    (type : ℕ) (payload : Bytes) (n : ℕ)
    → length payload < 2 ^ 32
    → n < length (add_message_header type payload)
    → extract_payload (take n (add_message_header type payload)) ≡ []
unfolding extract_payload add_message_header write_size write_uint32 take
extract_payload_cut_off type payload zero h n = refl
extract_payload_cut_off type payload (suc zero) h n = refl
extract_payload_cut_off type payload (suc (suc zero)) h n = refl
extract_payload_cut_off type payload (suc (suc (suc zero))) h n = refl
extract_payload_cut_off type payload (suc (suc (suc (suc zero)))) h n = refl
extract_payload_cut_off type payload (suc (suc (suc (suc (suc n))))) h below =
    ground (arith, length-take n payload)

extract_payload-Misframed :
    (type : ℕ) (payload s : Bytes)
    → length payload < 2 ^ 32
    → Misframed (add_message_header type payload) s
    → extract_payload s ≡ []
extract_payload-Misframed type payload _ h (cut_off n below) =
    extract_payload_cut_off type payload n h below
extract_payload-Misframed type payload _ h (run_on x rest) =
    extract_payload_behind type payload x rest h

pub run_whole : {A : Type 0} {m : Reader A} {s : Bytes} {a : A} → Reads m s a → run m s ≡ ok a
run_whole reads = let padded = run-Reads reads [] in rw append-nil at padded

-- A message: its type, its fields as they are written and read, and the message that is read from
-- nothing.
pub record FileProtocolMessage (T : Type 0) : Type 1 where
  pub type : ℕ
  pub write_fields : T → Bytes
  pub read_fields : Reader T
  pub empty_message : T
  -- The ranges of the fields' C++ types.
  pub IsValid : T → Type 0
  -- What the bytes carry of a message.
  pub carried : T → T
  pub read-write : (msg : T) → IsValid msg → run read_fields (write_fields msg) ≡ ok (carried msg)
  pub read_nothing : run read_fields [] ≡ ok empty_message

module _ {T : Type 0} (m : FileProtocolMessage T) where
  open m use {
    type, write_fields, read_fields, empty_message, IsValid, carried, read-write, read_nothing,
  }

  unfoldable pub serialize : T → Bytes
  serialize msg = add_message_header type (write_fields msg)

  unfoldable pub deserialize : Bytes → Result T
  deserialize data_span = run read_fields (extract_payload data_span)

  pub deserialize-serialize_fields :
      (msg : T)
      → IsValid msg
      → length (write_fields msg) < 2 ^ 32
      → deserialize (serialize msg) ≡ ok (carried msg)
  unfolding deserialize serialize
  deserialize-serialize_fields msg v h =
      ap (run read_fields) (extract_payload-add_message_header type (write_fields msg) h)
      ∙ read-write msg v

  pub deserialize-Misframed_fields :
      (msg : T) (s : Bytes)
      → length (write_fields msg) < 2 ^ 32
      → Misframed (serialize msg) s
      → deserialize s ≡ ok empty_message
  unfolding deserialize serialize
  deserialize-Misframed_fields msg s h misframed =
      ap (run read_fields) (extract_payload-Misframed type (write_fields msg) s h misframed)
      ∙ read_nothing
