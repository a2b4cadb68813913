-- ===== src/Packet/Json.antt =====
-- include/net/packetJson/handler.hpp: the packets that carry JSON, and the handlers of their URLs.
-- `J` and `json_parse` are the JSON library that `setJsonBodyParser` is given: the value and, from a
-- websocket, the URL, or `none` for a text that it refuses. `beyond` is the memory behind the local
-- array `urlString`, which is read as a C string. A text is the list of its bytes.
pub mod Delivery
pub mod EndToEnd
pub mod Parsers
use mlnsdk.Base.{
  ℕ, ◌+◌, ◌||◌, Bool, true, false, Option, none, some, List, [], ◌∷◌, ◌++◌, ltb, ◌==◌,
  if◌then◌else◌,
}
use mlnsdk.Base.Outcome.{Outcome, ok, thrown, fault, ◌>>=◌}
use mlnsdk.ByteStream.{ByteStream, read, read_data, size}
use mlnsdk.Packet.Protocol.{
  JsonHeader, decode_json_header, json_header_size, max_body_size, json_value,
  json_for_websocket_value,
}
use mlnsdk.Packet.Parser.{Handler}
use mlnsdk.Procedure.{Procedure, regist_packet}
use mlnsdk.Session.{Session, close_reserve}
use mlnsdk.Text.{c_string, find_text, insert_text}

-- `JsonPacketHandlerType`, given the user; whether it threw.
abbrev pub JsonHandler : Type 0 → Type 0
JsonHandler J = ℕ → List ℕ → J → Session → Session × Bool

module _ {J : Type 0} (json_parse : List ℕ → Bool → Option (J × List ℕ)) (beyond : List ℕ)
    (urls : List (List ℕ × JsonHandler J)) where
  -- `dispatch`
  unfoldable pub json_dispatch : Session → List ℕ → J → Session
  json_dispatch s url jv = elim (find_text url urls) [
    | none ↦ close_reserve 0 s
    | some handler ↦ elim s.user [
      | none ↦ close_reserve 0 s
      | some user ↦
          let (s', threw) = handler user url jv s in if threw then close_reserve 0 s' else s'
    ]
  ]

  -- What follows the header: the body, its JSON value and the handler of the URL.
  unfoldable pub read_json_body :
      Session → JsonHeader → ByteStream → Outcome (Session × ByteStream × Bool)
  read_json_body s req stream =
      if ltb max_body_size req.body_size || (req.body_size == 0)
      then ok (close_reserve 0 s, stream, false)
      else elim (read stream req.body_size) [
        | fault ↦ fault
        | thrown ↦ ok (close_reserve 0 s, stream, false)
        | ok (body, rest) ↦ elim (json_parse body false) [
          | none ↦ ok (close_reserve 0 s, rest, false)
          | some (jv, _) ↦ ok (json_dispatch s (c_string (req.url ++ beyond)) jv, rest, true)
        ]
      ]

  unfoldable pub read_json_packet : Session → ℕ → ByteStream → Outcome (Session × ByteStream × Bool)
  read_json_packet s size stream =
      if ltb size json_header_size
      then ok (close_reserve 0 s, stream, false)
      else (read stream json_header_size >>= λ r. read_json_body s (decode_json_header r.0) r.1)

  unfoldable pub read_json_websocket_packet :
      Session → ℕ → ByteStream → Outcome (Session × ByteStream × Bool)
  read_json_websocket_packet s _ stream = do
    bytes ← read_data stream (size stream)
    elim (json_parse bytes true) [
      | none ↦ ok (close_reserve 0 s, stream, false)
      | some (jv, url) ↦ ok (json_dispatch s url jv, stream, true)
    ]

-- A bound handler, for calls that return.
abbrev pub returning :
    (Session → ℕ → ByteStream → Outcome (Session × ByteStream × Bool)) → Handler Session
returning f s n b = elim (f s n b) [ ok r ↦ r | _ ↦ (s, b, false) ]

-- `init`
unfoldable pub init :
    {J C : Type 0}
    → (List ℕ → Bool → Option (J × List ℕ))
    → List ℕ
    → List (List ℕ × JsonHandler J)
    → Procedure C
    → Procedure C
init json_parse beyond urls p =
    let p' = (regist_packet json_value (returning (read_json_packet json_parse beyond urls)) p).0 in
    (regist_packet json_for_websocket_value
      (returning (read_json_websocket_packet json_parse beyond urls)) p').0

-- `registJsonPacketHandler`: `_URLs[url] = handler`.
unfoldable pub regist_json_packet_handler :
    {J : Type 0}
    → List ℕ
    → JsonHandler J
    → List (List ℕ × JsonHandler J)
    → List (List ℕ × JsonHandler J)
regist_json_packet_handler url handler urls = insert_text url handler urls
