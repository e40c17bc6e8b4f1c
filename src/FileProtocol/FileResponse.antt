-- ===== src/FileProtocol/FileResponse.antt =====
-- `FileResponseMessage` of src/network/file_protocol.cpp. The argument `unset` is what the members of a
-- FileMetadata hold that nothing has been assigned to.
use hyper_share.Prelude.{
  ◌<◌, ◌≤◌, ◌≡◌, ◌^◌, ◌++◌, refl, Bool, true, false, [], ◌∷◌, length, arith, append_assoc,
  append-nil,
}
use hyper_share.Wire.{Bytes, Reader, ok, err, ◌>>=◌, return, run}
use hyper_share.Wire.Laws.{Reads, Reads-bind, Reads-last, Reads-return, run-Reads}
use hyper_share.Wire.Little as Little
use hyper_share.Storage.Metadata.{FileMetadata}
use hyper_share.Storage.Metadata.Codec as Codec
use hyper_share.FileProtocol.Fields.{
  write_bool, write_string, write_vector_bytes, read_bool, read_string, read_vector_bytes,
  Reads-bool, Reads-string, Reads-vector_bytes,
}
use hyper_share.FileProtocol.{FileProtocolMessage, run_whole}

pub record FileResponseMessage : Type 0 where
  pub file_id : Bytes
  pub accepted : Bool
  pub error_message : Bytes
  pub metadata : FileMetadata

-- The metadata, or the size 0.
unfoldable pub write_metadata : Bool → FileMetadata → Bytes
write_metadata true metadata = write_vector_bytes (Codec.serialize metadata)
write_metadata false metadata = Little.write_uint32 0

unfoldable pub write_fields : FileResponseMessage → Bytes
write_fields msg =
    write_string msg.file_id
    ++ (write_bool msg.accepted
        ++ (write_string msg.error_message ++ write_metadata msg.accepted msg.metadata))

-- An error stands for a read past the end, in `FileMetadata::deserialize`.
unfoldable pub metadata_of : (unset : FileMetadata) → Bytes → Reader FileMetadata
metadata_of unset [] s = ok (unset, s)
metadata_of unset (x ∷ xs) s = elim (Codec.deserialize (x ∷ xs)) [
  | ok m ↦ ok (m, s)
  | err e ↦ err e
]

-- The metadata of a refusal are not read.
unfoldable pub read_metadata : (unset : FileMetadata) → Bool → Reader FileMetadata
read_metadata unset true = do metadata_bytes ← read_vector_bytes; metadata_of unset metadata_bytes
read_metadata unset false = return unset

pub read_fields : (unset : FileMetadata) → Reader FileResponseMessage
read_fields unset = do
  file_id ← read_string
  accepted ← read_bool
  error_message ← read_string
  metadata ← read_metadata unset accepted
  return (record {
    file_id = file_id;
    accepted = accepted;
    error_message = error_message;
    metadata = metadata;
  })

-- An acceptance writes its metadata, whose fields are in the ranges of their types.
abbrev pub IsSent : Bool → FileMetadata → Type 0
IsSent true m = Codec.IsValid m × (length (Codec.serialize m) < 2 ^ 32)
IsSent false m = Unit

-- The metadata that are read: of an acceptance what their own format carries, of a refusal none.
abbrev pub carried_metadata : (unset : FileMetadata) → Bool → FileMetadata → FileMetadata
carried_metadata unset true m = Codec.written m
carried_metadata unset false m = unset

abbrev pub carried : (unset : FileMetadata) → FileResponseMessage → FileResponseMessage
carried unset msg = record msg { metadata = carried_metadata unset msg.accepted msg.metadata }

pub record IsValid (msg : FileResponseMessage) : Type 0 where
  pub file_id_range : length msg.file_id < 2 ^ 32
  pub error_message_range : length msg.error_message < 2 ^ 32
  pub metadata_sent : IsSent msg.accepted msg.metadata

abbrev pub empty_message : (unset : FileMetadata) → FileResponseMessage
empty_message unset = record {
  file_id = [];
  accepted = false;
  error_message = [];
  metadata = unset;
}

Reads-metadata_of :
    (unset m : FileMetadata) (bytes : Bytes)
    → 1 ≤ length bytes
    → Codec.deserialize bytes ≡ ok m
    → Reads (metadata_of unset bytes) [] m
unfolding metadata_of
Reads-metadata_of unset m [] h e = absurd (omega arith)
Reads-metadata_of unset m (x ∷ xs) h e = record { reads = λ rest. rw (metadata_of, e) refl }

serialize_ne : (m : FileMetadata) → 1 ≤ length (Codec.serialize m)
unfolding Codec.serialize Little.write_string Little.write_size Little.write_uint32
serialize_ne m = omega arith

Reads-metadata :
    (unset m : FileMetadata)
    → IsSent true m
    → Reads (read_metadata unset true) (write_metadata true m) (Codec.written m)
unfolding read_metadata write_metadata
Reads-metadata unset m (v, h) =
    let padded = Codec.deserialize-serialize_metadata m [] v in
    let whole : Codec.deserialize (Codec.serialize m) ≡ ok (Codec.written m) =
      rw append-nil at padded in
    Reads-last _ _ _ _ _ (Reads-vector_bytes (Codec.serialize m) h)
      (Reads-metadata_of unset (Codec.written m) (Codec.serialize m) (serialize_ne m) whole)

read_response :
    (unset : FileMetadata) (i : Bytes) (accepted : Bool) (e : Bytes) (m : FileMetadata)
    → length i < 2 ^ 32
    → length e < 2 ^ 32
    → IsSent accepted m
    → run
        (read_fields unset)
        (write_string i ++ (write_bool accepted ++ (write_string e ++ write_metadata accepted m)))
      ≡ ok (record {
        file_id = i;
        accepted = accepted;
        error_message = e;
        metadata = carried_metadata unset accepted m;
      })
unfolding read_fields read_metadata
read_response unset i true e m hi he sent = run_whole (
    Reads-bind _ _ _ _ _ _ (Reads-string i hi) (
      Reads-bind _ _ _ _ _ _ (Reads-bool true) (
        Reads-bind _ _ _ _ _ _ (Reads-string e he)
          (Reads-last _ _ _ _ _ (Reads-metadata unset m sent) (Reads-return _)))))
read_response unset i false e m hi he sent =
    let front : Reads (read_fields unset) (write_string i ++ (write_bool false ++ write_string e))
        (record { file_id = i; accepted = false; error_message = e; metadata = unset }) =
      Reads-bind _ _ _ _ _ _ (Reads-string i hi) (
        Reads-bind _ _ _ _ _ _ (Reads-bool false) (
          Reads-last _ _ _ _ _ (Reads-string e he)
            (Reads-last _ _ _ _ _ (Reads-return unset) (Reads-return _)))) in
    let behind = run-Reads front (write_metadata false m) in
    rw (append_assoc, append_assoc) at behind

pub read-write :
    (unset : FileMetadata) (msg : FileResponseMessage)
    → IsValid msg
    → run (read_fields unset) (write_fields msg) ≡ ok (carried unset msg)
unfolding write_fields
read-write unset msg v =
    read_response unset msg.file_id msg.accepted msg.error_message msg.metadata v.file_id_range
      v.error_message_range v.metadata_sent

pub read_nothing : (unset : FileMetadata) → run (read_fields unset) [] ≡ ok (empty_message unset)
unfolding read_fields read_metadata ◌>>=◌ return read_bool read_string
read_nothing unset = refl

abbrev pub message : (unset : FileMetadata) → FileProtocolMessage FileResponseMessage
message unset = record {
  type = 0x12;
  write_fields = write_fields;
  read_fields = read_fields unset;
  empty_message = empty_message unset;
  IsValid = IsValid;
  carried = carried unset;
  read-write = read-write unset;
  read_nothing = read_nothing unset;
}
