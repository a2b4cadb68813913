-- ===== src/Packet/Parse.antt =====
-- include/net/packetJson/packetParser.hpp: `parse` for both types of session, with the fuel of the
-- loop for TCP.
use mlnsdk.Base.{ℕ, if◌then◌else◌}
use mlnsdk.ByteStream.{ByteStream}
use mlnsdk.Packet.Parser.{parse_tcp, parse_websocket}
use mlnsdk.Procedure.{CustomPacketParser}
use mlnsdk.Session.Types.{Session, is_tcp}

unfoldable pub parse : (Session → ByteStream → Session × ByteStream) → ℕ → CustomPacketParser
parse no_handler fuel s stream member_functions static_functions =
    if is_tcp s.session_type
    then parse_tcp no_handler static_functions fuel s stream
    else parse_websocket no_handler static_functions s stream
