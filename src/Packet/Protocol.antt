-- ===== src/Packet/Protocol.antt =====
-- include/net/packetJson/protocol.h: the packed structures and their layout in memory, and the
-- header writer of packetParser.hpp. Numbers are little-endian, as on the targets of the library.
mod Layout
pub mod RoundTrip
unfoldable pub use Layout.*
use mlnsdk.Base.{ℕ, ◌+◌, Option, List, ◌++◌, take, drop, slice, overwrite, to_int32, length}
use mlnsdk.ByteStream.{PacketManipulator}

-- `HEADER`
pub record Header : Type 0 where
  pub size : ℕ
  pub code : ℕ

abbrev pub sizeof_header : ℕ
sizeof_header = 8

unfoldable pub encode_header : Header → List ℕ
encode_header h = le_bytes 4 h.size ++ le_bytes 4 h.code

-- A `HEADER` read from the first eight bytes of memory.
unfoldable pub decode_header : List ℕ → Header
decode_header bs = record { size = le_value (take 4 bs); code = le_value (slice 4 4 bs) }

-- `packet_value` of `PT_JSON`, `PT_HEARTBEAT` and `PT_JSON_FOR_WEBSOCKET`.
abbrev pub json_value : ℕ
json_value = 1

abbrev pub heartbeat_value : ℕ
heartbeat_value = 3

abbrev pub json_for_websocket_value : ℕ
json_for_websocket_value = 5

abbrev pub max_body_size : ℕ
max_body_size = 8192

abbrev pub max_url_string : ℕ
max_url_string = 32

abbrev pub json_header_size : ℕ
json_header_size = 47

-- `PT_JSON` without the body.
pub record JsonHeader : Type 0 where
  pub header : Header
  pub sequence_no : ℕ
  pub is_compressed : ℕ
  pub url : List ℕ
  pub body_size : ℕ

unfoldable pub encode_json_header : JsonHeader → List ℕ
encode_json_header p =
    encode_header p.header
    ++ (le_bytes 4 p.sequence_no
        ++ (le_bytes 1 p.is_compressed ++ (p.url ++ le_bytes 2 p.body_size)))

unfoldable pub decode_json_header : List ℕ → JsonHeader
decode_json_header bs = record {
  header = decode_header (take 8 bs);
  sequence_no = le_value (slice 8 4 bs);
  is_compressed = le_value (slice 12 1 bs);
  url = slice 13 max_url_string bs;
  body_size = le_value (slice 45 2 bs);
}

-- `PacketJsonParserManip`
unfoldable pub set_packet_header : ℕ → List ℕ → Option (List ℕ)
set_packet_header current_size buffer =
    overwrite 0 (encode_header (record { size = to_int32 current_size; code = json_value })) buffer

unfoldable pub json_manipulator : PacketManipulator
json_manipulator = record { get_header_size = sizeof_header; write_header_size = set_packet_header }
