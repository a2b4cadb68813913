-- ===== src/Packet.antt =====
-- include/net/packetJson: the wire format, the framing of a byte stream, and the JSON handler.
pub mod Protocol
pub mod Parser
pub mod Json
pub mod Parse
pub mod Websocket
