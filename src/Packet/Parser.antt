-- ===== src/Packet/Parser.antt =====
-- include/net/packetJson/packetParser.hpp: `PacketJsonParser::parse`, which cuts the received bytes
-- into packets and calls the handlers. `W` is the state that the handlers change: the session and all
-- that they reach. The loop runs on fuel.
pub mod Cut
pub mod Steps
pub mod Framing
pub mod Progress
pub mod Splitting
pub mod Chunks
use mlnsdk.Base.{
  ℕ, zero, suc, ◌||◌, Bool, true, false, Option, none, some, List, ltb, if◌then◌else◌, lookup,
  negative_int32,
}
use mlnsdk.Base.Outcome.{Outcome, ok, thrown, fault, ◌>>=◌}
use mlnsdk.ByteStream.{
  ByteStream, new_stream, default_buffer_size, size, try_read, read_data, write, clear,
  advance_pos_read,
}
use mlnsdk.Packet.Protocol.{Header, decode_header, sizeof_header, json_for_websocket_value}

-- `PacketHandlerTy`: given the size and a packet, which it may consume.
abbrev pub Handler : Type 0 → Type 0
Handler W = W → ℕ → ByteStream → W × ByteStream × Bool

-- `PacketMapTy`
abbrev pub PacketMap : Type 0 → Type 0
PacketMap W = List (ℕ × Handler W)

pub data Ending : Type 0 where
  returned : Bool → Ending
  -- `std::bad_function_call`
  bad_call : Ending
  -- an access outside a buffer, or the exception of a read that the loop does not catch
  broken : Ending
  -- the fuel ran out
  running : Ending

-- What a call leaves behind.
pub record Parsed (W : Type 0) : Type 0 where
  pub world : W
  pub stream : ByteStream
  pub ending : Ending

-- A new `ByteStream` with the first `n` bytes, and the stream without them.
unfoldable pub cut_packet : ByteStream → ℕ → Outcome (ByteStream × ByteStream)
cut_packet s n = do
  bytes ← read_data s n
  packet ← write (new_stream default_buffer_size) bytes
  s' ← advance_pos_read s n
  ok (packet, s')

module _ {W : Type 0} (no_handler : W → ByteStream → W × ByteStream) (map : PacketMap W) where
  -- The `do … while (true)` of a TCP session.
  unfoldable pub parse_tcp : ℕ → W → ByteStream → Parsed W
  parse_tcp zero w s = record { world = w; stream = s; ending = running }
  parse_tcp (suc fuel) w s = elim (try_read s sizeof_header) [
    | ok none ↦ record { world = w; stream = s; ending = returned true }
    | ok (some bytes) ↦
        let h = decode_header bytes in
        elim (negative_int32 h.size || ltb 65535 h.size) [
          | true ↦ record { world = w; stream = s; ending = returned false }
          | false ↦ elim (ltb (size s) h.size) [
            | true ↦ record { world = w; stream = s; ending = returned true }
            | false ↦ elim (cut_packet s h.size) [
              | ok (packet, s') ↦ elim (lookup h.code map) [
                | some handler ↦ parse_tcp fuel (handler w h.size packet).0 s'
                | none ↦ record {
                  world = (no_handler w packet).0;
                  stream = s';
                  ending = returned false;
                }
              ]
              | _ ↦ record { world = w; stream = s; ending = broken }
            ]
          ]
        ]
    | _ ↦ record { world = w; stream = s; ending = broken }
  ]

  -- `staticFuncMap[packet_value]` makes an empty function where there is none, and calls it.
  unfoldable pub parse_websocket : W → ByteStream → Parsed W
  parse_websocket w s = elim (lookup json_for_websocket_value map) [
    | some handler ↦
        let (w', s', _) = handler w (size s) s in
        record { world = w'; stream = s'; ending = returned true }
    | none ↦ record { world = w; stream = s; ending = bad_call }
  ]
