-- ===== src/Packet/Json/Parsers/Alike.antt =====
-- What the two parsers of include/net/packetJson make of a text.
use mlnsdk.Base.Outcome.{Outcome}
