-- ===== src/FileProtocol/Exchange.antt =====
-- The messages of src/network/file_protocol.cpp by their kinds. What members
-- of a FileMetadata hold that nothing has been assigned to is the argument `unset`.
use hyper_share.Prelude.{◌<◌, ◌≡◌, ◌^◌, length}
use hyper_share.Wire.{Bytes, ok}
use hyper_share.FileProtocol.{
  FileProtocolMessage, Misframed, serialize, deserialize, deserialize-serialize_fields,
  deserialize-Misframed_fields,
}
use hyper_share.FileProtocol.FileAnnounce as FileAnnounce
use hyper_share.FileProtocol.FileRequest as FileRequest
use hyper_share.Storage.Metadata.{FileMetadata}
use hyper_share.FileProtocol.FileResponse as FileResponse
use hyper_share.FileProtocol.ChunkRequest as ChunkRequest
use hyper_share.FileProtocol.ChunkData as ChunkData
use hyper_share.FileProtocol.ChunkAck as ChunkAck

pub data FileProtocolMessageType : Type 0 where
  file_announce file_request file_response chunk_request chunk_data chunk_ack :
      FileProtocolMessageType

abbrev pub Message : FileProtocolMessageType → Type 0
Message file_announce = FileAnnounce.FileAnnounceMessage
Message file_request = FileRequest.FileRequestMessage
Message file_response = FileResponse.FileResponseMessage
Message chunk_request = ChunkRequest.ChunkRequestMessage
Message chunk_data = ChunkData.ChunkDataMessage
Message chunk_ack = ChunkAck.ChunkAckMessage

abbrev pub message_of :
    (unset : FileMetadata) (kind : FileProtocolMessageType) → FileProtocolMessage (Message kind)
message_of unset file_announce = FileAnnounce.message
message_of unset file_request = FileRequest.message
message_of unset file_response = FileResponse.message unset
message_of unset chunk_request = ChunkRequest.message
message_of unset chunk_data = ChunkData.message
message_of unset chunk_ack = ChunkAck.message

-- Of a message of the file protocol whose fields are in the ranges of their types and fill less than
-- 2^32 bytes, what its serialization carries is read back: the message itself, but for the metadata of
-- a response. Those of an acceptance come back as their own format carries them, with no tags and with
-- the number of the hashes as the chunk count; those of a refusal are not sent and come back unset.
pub deserialize-serialize_file :
    (unset : FileMetadata) (kind : FileProtocolMessageType) (msg : Message kind)
    → FileProtocolMessage.IsValid (message_of unset kind) msg
    → length (FileProtocolMessage.write_fields (message_of unset kind) msg) < 2 ^ 32
    → deserialize (message_of unset kind) (serialize (message_of unset kind) msg)
      ≡ ok (FileProtocolMessage.carried (message_of unset kind) msg)
deserialize-serialize_file unset kind = deserialize-serialize_fields (message_of unset kind)

-- From a frame of the file protocol that was cut off, or that more bytes follow, a message is read
-- whose fields are all empty (its metadata unset), if the fields that were written fill less than 2^32 bytes: no error
-- tells it from a message that was sent.
pub deserialize-Misframed :
    (unset : FileMetadata) (kind : FileProtocolMessageType) (msg : Message kind) (s : Bytes)
    → length (FileProtocolMessage.write_fields (message_of unset kind) msg) < 2 ^ 32
    → Misframed (serialize (message_of unset kind) msg) s
    → deserialize (message_of unset kind) s
      ≡ ok (FileProtocolMessage.empty_message (message_of unset kind))
deserialize-Misframed unset kind = deserialize-Misframed_fields (message_of unset kind)
