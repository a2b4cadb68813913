-- ===== src/Sample.antt =====
-- mlnserver: the sample server's handlers, over the library. The JSON library is `json_parse` and
-- `serialize`; `wrap` makes the text of an object with a URL and a body. `garbage` is the header size
-- that sendJsonPacket leaves unset.
pub mod Echo
pub mod Users
use Prim.Native.String.{String}
use mlnsdk.Base.{ℕ, Bool, true, false, Option, none, some, List, [], if◌then◌else◌}
use mlnsdk.Base.Outcome.{Outcome, ok, thrown, fault}
use mlnsdk.Text.{codes}
use mlnsdk.ByteStream.{ByteStream}
use mlnsdk.Packet.Json.{JsonHandler, init, regist_json_packet_handler}
use mlnsdk.Procedure.{Procedure}
use mlnsdk.Session.{Session, is_tcp, close_reserve, set_user}
use mlnsdk.User.{Sent, greeting, send_json_packet, send_json_websocket_packet}
use mlnsdk.Users.{Manager, add_user_base, closed_user}
use mlnsdk.Users.Pairs.{UserList}

abbrev pub login_url : List ℕ
login_url = codes "/lobby/login"

-- How a handler ends that sends last. An access past an array ends it nowhere; the session is then
-- left as it was.
abbrev pub sent_last : Session → Sent → Session × Bool
sent_last s (ok (some s', n)) = (s', false)
sent_last s (ok (none, n)) = (s, false)
sent_last s thrown = (s, true)
sent_last s fault = (s, false)

module _ {J : Type 0} (serialize : J → List ℕ) (wrap : List ℕ → List ℕ → List ℕ) (garbage : ℕ) where
  -- The handler of "/lobby/login".
  unfoldable pub login : JsonHandler J
  login user url jv s =
      if is_tcp s.session_type
      then sent_last s (send_json_packet greeting garbage url (serialize jv) (some s))
      else sent_last s (send_json_websocket_packet (wrap url (serialize jv)) (some s))

  -- `initHandler`
  unfoldable pub init_handler :
      {C : Type 0} → (List ℕ → Bool → Option (J × List ℕ)) → List ℕ → Procedure C → Procedure C
  init_handler json_parse beyond p =
      init json_parse beyond (regist_json_packet_handler login_url login []) p

module _ (identity : ℕ → ℕ) where
  -- `onAccept`
  unfoldable pub sample_on_accept : ℕ → Manager → Manager
  sample_on_accept session m = (add_user_base identity session m).0

-- `onClose`
unfoldable pub sample_on_close :
    (l : UserList) → (ℕ → ℕ) → ℕ → Manager → l.State → Outcome (Manager × l.State)
sample_on_close l user_id session m pairs = closed_user l user_id session m pairs

-- `noHandler` and `onExpiredSession`
unfoldable pub no_handler : Session → ByteStream → Session × ByteStream
no_handler s packet = (close_reserve 0 s, packet)

unfoldable pub on_expired_session : Session → Session
on_expired_session s = close_reserve 0 s

-- `onConnect` of the sample client, with the text that it sends.
unfoldable pub sample_on_connect : ℕ → ℕ → List ℕ → Session → Sent
sample_on_connect user garbage text s =
    send_json_packet greeting garbage login_url text (some (set_user (some user) s))
