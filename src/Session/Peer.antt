-- ===== src/Session/Peer.antt =====
-- include/net/session.hpp: the members of a session that say who it is with. No other operation of the
-- session uses them, so that they stand in a record of their own. `E` is the endpoint of asio.
use mlnsdk.Base.{ℕ, ◌≡◌, refl, if◌then◌else◌, List}
use mlnsdk.Base.Outcome.{Outcome, ok, ◌>>=◌, returned_before}
use mlnsdk.Session.Types.{Session, SessionType, SocketStatus, is_tcp}
use mlnsdk.Text.{codes}

-- `_endPoint` and `_netServiceID`
pub record Peer (E : Type 0) : Type 0 where
  pub end_point : E
  pub net_service_id : ℕ

-- `setSocketStatus`
unfoldable pub set_socket_status : SocketStatus → Session → Session
set_socket_status status s = record s { status = status }

-- `getSessionTypeString`
unfoldable pub session_type_string : SessionType → List ℕ
session_type_string type = if is_tcp type then codes "TCP" else codes "WEBSOCKET"

module _ {E : Type 0} where
  unfoldable pub set_service_id : ℕ → Peer E → Peer E
  set_service_id id p = record p { net_service_id = id }

  -- `saveEndPoint`, given what `remote_endpoint` of the socket gives: it throws for a socket that is
  -- no longer connected.
  unfoldable pub save_end_point : Outcome E → Peer E → Outcome (Peer E)
  save_end_point remote p = remote >>= λ e. ok (record p { end_point = e })

  -- `getEndPointSocket`, for the address and the port of an endpoint.
  unfoldable pub get_end_point_socket : (E → List ℕ) → (E → ℕ) → Peer E → List ℕ × ℕ
  get_end_point_socket address port p = (address p.end_point, port p.end_point)

  -- Where saveEndPoint returns, getEndPointSocket gives the address and the port that the socket had
  -- then, whatever service identity is set behind it.
  pub end_point_kept :
      (address : E → List ℕ) (port : E → ℕ) (remote : Outcome E) (id : ℕ) (p q : Peer E)
      → save_end_point remote p ≡ ok q
      → (e : E) × (remote ≡ ok e)
        × (get_end_point_socket address port (set_service_id id q) ≡ (address e, port e))
  unfolding save_end_point get_end_point_socket set_service_id
  end_point_kept address port remote id p q saved =
      let (e, found, same) = returned_before remote (λ e. ok (record p { end_point = e })) saved in
      let saved_peer : q ≡ record { end_point = e; net_service_id = p.net_service_id } = cc in
      (e, found, rw saved_peer refl)
