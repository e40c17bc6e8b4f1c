-- ===== src/Protocol/Header.antt =====
-- `MessageHeader` of src/network/protocol.cpp. A message type and its flags are bytes: the enums
-- have a fixed underlying type, and `deserialize` casts any byte to them. The message id and the
-- time of a new header, which the source draws at random and from the clock, are arguments.
pub mod Laws
use hyper_share.Prelude.{
  ℕ, ◌+◌, ◌*◌, ◌≤◌, ◌<◌, ◌^◌, ◌≡◌, ◌&&◌, ◌++◌, Bool, true, refl, length, arith, ltb, ◌==◌,
  if◌then◌else◌, ==_refl, le→ltb, length-append,
}
use hyper_share.Wire.{
  Bytes, Error, Reader, Result, ok, err, ◌>>=◌, return, run, byte_at, write_uint8, write_uint16,
  write_uint32, write_uint64, read_uint8, read_uint16, read_uint32, read_uint64,
}
use hyper_share.Wire.Laws.{Reads, run-Reads, fields}
use hyper_share.Protocol.Checksum.{calculate_crc32, calculate_crc32-lt}

abbrev pub protocol_magic : ℕ
protocol_magic = 0x48595045

abbrev pub protocol_version : ℕ
protocol_version = 1

abbrev pub message_header_size : ℕ
message_header_size = 32

-- `std::array<std::uint8_t, 4>`
pub record Checksum : Type 0 where
  pub byte0 : ℕ
  pub byte1 : ℕ
  pub byte2 : ℕ
  pub byte3 : ℕ

pub record MessageHeader : Type 0 where
  pub magic : ℕ
  pub version : ℕ
  pub type : ℕ
  pub flags : ℕ
  pub message_id : ℕ
  pub payload_size : ℕ
  pub timestamp : ℕ
  pub checksum : Checksum

-- The constructor with a type and a payload length.
unfoldable pub new_header : (message_id timestamp msg_type payload_len : ℕ) → MessageHeader
new_header message_id timestamp msg_type payload_len = record {
  magic = protocol_magic;
  version = protocol_version;
  type = msg_type;
  flags = 0;
  message_id = message_id;
  payload_size = payload_len;
  timestamp = timestamp;
  checksum = record { byte0 = 0; byte1 = 0; byte2 = 0; byte3 = 0 };
}

unfoldable pub is_valid : MessageHeader → Bool
is_valid header = header.magic == protocol_magic && header.version == protocol_version

unfoldable pub calculate_checksum : Bytes → MessageHeader → MessageHeader
calculate_checksum payload header =
    let crc = calculate_crc32 payload in
    record header {
      checksum = record {
        byte0 = byte_at crc 24;
        byte1 = byte_at crc 16;
        byte2 = byte_at crc 8;
        byte3 = byte_at crc 0;
      };
    }

unfoldable pub verify_checksum : MessageHeader → Bytes → Bool
verify_checksum header payload =
    calculate_crc32 payload == c.byte0 * 2 ^ 24 + c.byte1 * 2 ^ 16 + c.byte2 * 2 ^ 8 + c.byte3
  where
    c : Checksum
    c = header.checksum

unfoldable pub serialize : MessageHeader → Bytes
serialize header =
    write_uint32 header.magic
    ++ (write_uint16 header.version
        ++ (write_uint8 header.type
            ++ (write_uint8 header.flags
                ++ (write_uint64 header.message_id
                    ++ (write_uint32 header.payload_size
                        ++ (write_uint64 header.timestamp
                            ++ (write_uint8 header.checksum.byte0
                                ++ (write_uint8 header.checksum.byte1
                                    ++ (write_uint8 header.checksum.byte2
                                        ++ write_uint8 header.checksum.byte3)))))))))

-- The source takes the single bytes with no test of their own: the size test of `deserialize`
-- covers them, so the reads that test here never fail for them.
unfoldable pub read : Reader MessageHeader
read = do
  magic ← read_uint32
  version ← read_uint16
  type ← read_uint8
  flags ← read_uint8
  message_id ← read_uint64
  payload_size ← read_uint32
  timestamp ← read_uint64
  byte0 ← read_uint8
  byte1 ← read_uint8
  byte2 ← read_uint8
  byte3 ← read_uint8
  return (record {
    magic = magic;
    version = version;
    type = type;
    flags = flags;
    message_id = message_id;
    payload_size = payload_size;
    timestamp = timestamp;
    checksum = record { byte0 = byte0; byte1 = byte1; byte2 = byte2; byte3 = byte3 };
  })

unfoldable pub deserialize : Bytes → Result MessageHeader
deserialize data_span =
    if ltb (length data_span) message_header_size
    then err Error.message_header
    else run read data_span

-- The ranges of the fields' C++ types.
pub record IsInRange (header : MessageHeader) : Type 0 where
  pub magic_range : header.magic < 2 ^ 32
  pub version_range : header.version < 2 ^ 16
  pub type_range : header.type < 2 ^ 8
  pub flags_range : header.flags < 2 ^ 8
  pub message_id_range : header.message_id < 2 ^ 64
  pub payload_size_range : header.payload_size < 2 ^ 32
  pub timestamp_range : header.timestamp < 2 ^ 64
  pub byte0_range : header.checksum.byte0 < 2 ^ 8
  pub byte1_range : header.checksum.byte1 < 2 ^ 8
  pub byte2_range : header.checksum.byte2 < 2 ^ 8
  pub byte3_range : header.checksum.byte3 < 2 ^ 8
