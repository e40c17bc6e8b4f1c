-- ===== src/Lib.antt =====
-- HyperShare, a peer-to-peer file sharing program in C++: a model of its peer protocol and of its
-- transfer of files, with the theorems that make them correct.
--
-- The parts and how they interact. A message of the protocol is a payload behind a header of 32 bytes
-- (src/network/protocol.cpp). A connection (src/network/connection.cpp) frames messages, queues the
-- frames for the socket and reads frames back; src/network/message_handler.cpp reads a message out of
-- one buffer and queues messages for their handlers. The transfer manager
-- (src/transfer/transfer_manager.cpp) keeps the transfer sessions (src/transfer/transfer_session.cpp),
-- each of which requests the chunks of the file that its metadata (src/storage/file_metadata.cpp)
-- describes and accepts those that arrive. The flow controller (src/transfer/flow_control.cpp) and the
-- bandwidth limiter (src/transfer/bandwidth_limiter.cpp) say how much may be requested and sent. The
-- connection manager (src/network/connection_manager.cpp) answers handshakes, watches over the
-- connections and gives every peer whose handshake is complete to the peer router
-- (src/network/peer_router.cpp), which learns routes and finds files with messages of its own. A secure
-- handshake (src/crypto/secure_handshake.cpp) is to give two peers session keys; a secure message
-- (src/network/secure_message.cpp) is encrypted by the engine of src/crypto/encryption.cpp, whose nonce
-- manager refuses replayed messages. The file index (src/storage/file_index.cpp) keeps the metadata of
-- files in a database. src/network/file_protocol.cpp has messages of its own about files, which no other
-- part uses.
--
-- The files.
--   Prelude: shared names, Boolean tests and lists on native numbers. Maps: std::unordered_map as an
--   association list over an interface of keys with an equality test.
--   Wire: fields of a byte buffer; a reader is a function from the bytes that are left to a result,
--   where an error stands for the exception. Wire.Laws, Wire.Prefix and Wire.Widths hold the laws and
--   the rule sets with which each message is proved; Wire.Little has the little-endian fields.
--   Protocol: Payload is the concept MessagePayload as an interface with laws, filled by each message;
--   Checksum and Header are calculate_crc32 and MessageHeader.
--   Connection: the state of a connection with send_message, do_write and its completion (write_done,
--   write_failed) and close, and the read loop. Receive, Transfer and WriteQueue hold the proofs.
--   MessageSerializer, MessageQueue: the two classes of message_handler.cpp.
--   Storage.Metadata: FileMetadata, with its chunk layout (Layout) and its binary format (Codec).
--   Storage.Index: FileIndex, over an interface of the SQL statements; Chunks and Contents hold the
--   proofs.
--   Transfer: Bits is std::bitset<1024>; Session, Manager, FlowControl and Bandwidth are the classes of
--   src/transfer, each with child modules for its proofs.
--   Router: the four messages of the peer router; Double is the interface of the operations on double;
--   Table is the part of PeerRouter that knows peers and routes, Files that of the files, Queries has
--   find_file and handle_file_query, Rounds what the maintenance thread calls. Messages: all messages,
--   by their kinds.
--   Manager: ConnectionManager, with its handshakes; Health is check_connection_health with the mutex
--   of the connections.
--   Crypto: Nonces is NonceManager, with Window for one peer and Replay for all; Encryption is
--   EncryptionEngine; SecureMessage has Sealing for the way through both; Keys is the derivation of
--   session keys (src/crypto/key_manager.cpp) and the signatures (src/crypto/signature.cpp); Handshake
--   has a module for each message, Phases is SecureHandshake and Halts what becomes of it.
--   FileProtocol: src/network/file_protocol.cpp, its frame with the interface of a message, Fields for
--   what its messages are made of, a module for each message, and Exchange for all of them.
--   The modules named Runs apply the theorems to concrete data.
--
-- How the code is modelled. A byte is a number below 256 and a string is a list of bytes. Numbers are
-- natural numbers with the wrap-around of their C++ types written out where the code can reach it; a
-- round trip assumes that the fields are in the range of their types. A method is a function from the
-- state, and its arguments, to the new state and the result; exceptions, divisions by zero and pops of
-- an empty queue are results of their own. The clock, random identifiers and members that the source
-- leaves uninitialised are arguments. Each method that holds a mutex is one step; orders of steps are
-- lists of calls or inductive relations (Reach, Download).
--
-- Bounds and fuel. The read loop of a connection recurses on fuel, one more than the bytes of the
-- stream; a delivered message takes 32 bytes at least, so that the fuel is never used up. The loop of
-- request_next_chunks has one round for each chunk that is left. All other loops are structural.
--
-- What is a parameter. SQLite is the interface Database of the statements that are run, with its
-- documentation as the laws IsDatabase. crypto_generichash of libsodium is a function from bytes to bytes, about which
-- nothing is assumed. Its cipher (Aead), signatures, key exchange and HMAC (Sodium) are interfaces; what a
-- theorem assumes of them is a hypothesis. The sockets of boost are the list of the buffers given to async_write and the
-- bytes that the peer has sent. Operations on double are an interface with no laws. The order of
-- std::shuffle is a function on lists, of which a theorem says what it assumes. What connection
-- objects say of themselves to the connection manager is a record of functions. The header of the nonce
-- manager is not in the repository; where it may change the size of the window, a theorem has any size.
--
-- What is not modelled. The threads of the router and of the connection manager, and their statistics;
-- the key files and trusted peers; discovery and the servers; the
-- creation of the tables of the file index, its totals and its cleanup; the chunk manager and the files
-- on disk; percentages, speeds and other doubles; the command line,
-- inter-process communication, configuration and logging.
pub mod Prelude
pub mod Wire
pub mod Protocol
pub mod Connection
pub mod MessageSerializer
pub mod MessageQueue
pub mod Maps
pub mod Storage
pub mod Transfer
pub mod Router
pub mod Messages
pub mod Crypto
pub mod Manager
pub mod FileProtocol
