-- ===== src/User.antt =====
-- include/net/user/userBase.hpp: what a user sends through its session. The user holds its session
-- weakly, so each call is given the session that `lock` finds, or `none`, and returns it.
pub mod Wire
use mlnsdk.Base.{
  ℕ, ◌+◌, ◌-◌, ◌^◌, Bool, true, false, Option, none, some, List, [], ◌∷◌, ◌++◌, ltb, ◌||◌, ◌==◌,
  if◌then◌else◌, length, take, replicate, to_uint16,
}
use mlnsdk.Base.Outcome.{Outcome, ok, thrown, fault, ◌>>=◌}
use mlnsdk.Packet.Protocol.{
  Header, JsonHeader, encode_json_header, json_value, json_header_size, max_url_string,
  max_body_size,
}
use mlnsdk.Session.{Session, SessionType, send_byte_stream, send_raw, close_reserve}

-- `EncType::GREETING`, the one encryption type.
abbrev pub greeting : ℕ
greeting = 0

-- The session after a call that sent, and the number that the call returns.
abbrev pub Sent : Type 0
Sent = Outcome (Option Session × ℕ)

abbrev sent : Outcome Session → ℕ → Sent
sent m n = m >>= λ s. ok (some s, n)

-- `send(data, size, writeHeader)`, with the static `_encType`.
unfoldable pub user_send : ℕ → List ℕ → Bool → Option Session → Sent
user_send enc_type bytes write_header none = ok (none, 0)
user_send enc_type bytes write_header (some s) =
    if enc_type == greeting
    then sent (send_byte_stream bytes write_header s) (length bytes)
    else ok (some s, 0)

-- `initEncKey`: the five bytes of "hello".
unfoldable pub init_enc_key : ℕ → Bool → Option Session → Outcome (Option Session × Bool)
init_enc_key enc_type write_header none = ok (none, true)
init_enc_key enc_type write_header (some s) =
    if enc_type == greeting
    then (send_byte_stream (b'h' ∷ b'e' ∷ b'l' ∷ b'l' ∷ b'o' ∷ []) write_header s >>= λ s'.
        ok (some s', true))
    else ok (some s, true)

unfoldable pub user_close_reserve : ℕ → Option Session → Option Session
user_close_reserve ms none = none
user_close_reserve ms (some s) = some (close_reserve ms s)

-- The packet that `sendJsonPacket` builds. `garbage` is its header's size, which is not set here.
abbrev pub json_packet : ℕ → List ℕ → List ℕ → JsonHeader
json_packet garbage url body = record {
  header = record { size = garbage; code = json_value };
  sequence_no = 2 ^ 32 - 1;
  is_compressed = 0;
  url = url ++ replicate (max_url_string - length url) 0;
  body_size = to_uint16 (length body);
}

-- `sendJsonPacket`: a URL or a body that is longer than its array is written past the array.
unfoldable pub send_json_packet : ℕ → ℕ → List ℕ → List ℕ → Option Session → Sent
send_json_packet enc_type garbage url body user_session =
    if ltb max_url_string (length url) || ltb max_body_size (length body)
    then fault
    else user_send enc_type
        (take (json_header_size + to_uint16 (length body))
          (encode_json_header (json_packet garbage url body) ++ body))
        false user_session

-- `sendJsonWebsocketPacket`
unfoldable pub send_json_websocket_packet : List ℕ → Option Session → Sent
send_json_websocket_packet payload none = ok (none, 0)
send_json_websocket_packet payload (some s) = sent (send_raw payload s) (length payload)
