-- ===== src/Service/Acceptor.antt =====
-- include/net/netServiceAcceptor.hpp. What is under way on each of the two listening sockets is a
-- `Pending`; `accepted` are the sessions passed to `onAccept` and started, in order.
pub mod Starting
pub mod Listening
pub mod Stopping
use mlnsdk.Base.{
  ℕ, zero, suc, ◌+◌, ◌≡◌, refl, Bool, true, false, Option, none, some, List, [], ◌∷◌, ◌++◌, ◌==◌,
  if◌then◌else◌,
}
use mlnsdk.Base.Outcome.{Outcome, ok, thrown, fault, ◌>>=◌}
use mlnsdk.Session.Types.{SessionType, tcp, websocket, is_tcp}

pub data Pending : Type 0 where
  idle : Pending
  accepting handshaking : ℕ → Pending

pub record Acceptor : Type 0 where
  pub tcp_pending : Pending
  pub web_pending : Pending
  pub next_session : ℕ
  pub accepted : List (SessionType × ℕ)
  pub keep_alive_time : ℕ
  -- the time-outs set on websocket streams; 0 is `expires_never`
  pub timeouts : List (ℕ × ℕ)
  pub update_time : ℕ
  pub update_waits : ℕ

unfoldable pub new_acceptor : ℕ → ℕ → Acceptor
new_acceptor keep_alive_time update_time = record {
  tcp_pending = idle;
  web_pending = idle;
  next_session = 0;
  accepted = [];
  keep_alive_time = keep_alive_time;
  timeouts = [];
  update_time = update_time;
  update_waits = 0;
}

-- What asio answers for one port.
pub record Endpoint : Type 0 where
  pub resolves : Bool
  pub opens : Bool
  pub binds : Bool
  pub listens : Bool

-- `createSession` of `acceptWait`: the result of a failed `resolve` is dereferenced, `set_option`
-- throws on a socket that is not open, and only `bind` and `listen` are tested.
unfoldable pub create_session : Endpoint → Acceptor → Outcome (Acceptor × Option ℕ)
create_session p a =
    let session = a.next_session in
    let a' = record a { next_session = session + 1 } in
    if p.resolves
    then if p.opens
      then if p.binds
        then if p.listens then ok (a', some session) else ok (a', none)
        else ok (a', none)
      else thrown
    else fault

-- `NetCommonObjects::expireTimerReady`, the count of waits alone.
unfoldable pub expire_timer_ready : Acceptor → Acceptor
expire_timer_ready a =
    if a.update_time == 0 then a else record a { update_waits = a.update_waits + 1 }

unfoldable pub accept_web : Acceptor × Option ℕ → Acceptor × Bool
unfolding expire_timer_ready
accept_web (a, none) = (a, false)
accept_web (a, some session) =
    (expire_timer_ready (record a { web_pending = accepting session }), true)

unfoldable pub accept_tcp : Endpoint → Acceptor × Option ℕ → Outcome (Acceptor × Bool)
accept_tcp web (a, none) = ok (a, false)
accept_tcp web (a, some session) =
    create_session web (record a { tcp_pending = accepting session })
    >>= (λ made. ok (accept_web made))

-- `acceptWait`
unfoldable pub accept_wait : Endpoint → Endpoint → Acceptor → Outcome (Acceptor × Bool)
accept_wait port web a = create_session port a >>= (λ made. accept_tcp web made)

-- `handleWebsocketLayer`: the next accept is not asked for here.
unfoldable pub handle_websocket_layer : Bool → ℕ → Acceptor → Acceptor
handle_websocket_layer true session a = a
handle_websocket_layer false session a = record a {
  timeouts = a.timeouts ++ (session, a.keep_alive_time) ∷ [];
  web_pending = handshaking session;
}

-- The next `async_accept`, on the socket of the session's kind.
unfoldable pub accept_next : SessionType → Acceptor → Acceptor
accept_next tcp a = record a {
  next_session = a.next_session + 1;
  tcp_pending = accepting a.next_session;
}
accept_next websocket a = record a {
  next_session = a.next_session + 1;
  web_pending = accepting a.next_session;
}

-- `handleAccept`, given whether it is called with an error and whether the peer is gone by then, in
-- which case `saveEndPoint` throws.
unfoldable pub handle_accept : Bool → Bool → SessionType → ℕ → Acceptor → Outcome Acceptor
handle_accept true gone type session a = ok a
handle_accept false true type session a = thrown
handle_accept false false type session a =
    ok (accept_next type (record a { accepted = a.accepted ++ (type, session) ∷ [] }))

-- What asio completes: an accept on the TCP port, one on the websocket port, a handshake.
pub data Completion : Type 0 where
  tcp_accept : Bool → Bool → Completion
  web_accept : Bool → Completion
  handshake : Bool → Bool → Completion

unfoldable pub complete_tcp : Pending → Bool → Bool → Acceptor → Outcome Acceptor
complete_tcp (accepting session) error gone a =
    handle_accept error gone tcp session (record a { tcp_pending = idle })
complete_tcp _ error gone a = ok a

unfoldable pub complete_web : Pending → Bool → Acceptor → Acceptor
complete_web (accepting session) error a =
    handle_websocket_layer error session (record a { web_pending = idle })
complete_web _ error a = a

unfoldable pub complete_handshake : Pending → Bool → Bool → Acceptor → Outcome Acceptor
complete_handshake (handshaking session) error gone a =
    handle_accept error gone websocket session (record a { web_pending = idle })
complete_handshake _ error gone a = ok a

-- A completion of what is under way; nothing is completed that is not.
unfoldable pub complete : Completion → Acceptor → Outcome Acceptor
complete (tcp_accept error gone) a = complete_tcp a.tcp_pending error gone a
complete (web_accept error) a = ok (complete_web a.web_pending error a)
complete (handshake error gone) a = complete_handshake a.web_pending error gone a

unfoldable pub run : List Completion → Acceptor → Outcome Acceptor
run [] a = ok a
run (e ∷ es) a = complete e a >>= run es
