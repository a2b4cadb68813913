-- ===== src/Service/Connector.antt =====
-- include/net/netServiceConnector.hpp. An endpoint of the resolver is a number; asserts are those of
-- a release build, where they do nothing. `connected` and `failed` are the sessions passed to
-- `onConnect` and `onConnectFailed`, in order.
pub mod Endpoint
pub mod Connecting
use mlnsdk.Base.{
  ℕ, zero, suc, ◌+◌, ◌-◌, ◌%◌, ◌^◌, ◌≡◌, refl, Bool, true, false, Option, none, some, List, [], ◌∷◌,
  ◌++◌, ltb, ◌==◌, if◌then◌else◌, to_uint16,
}
use mlnsdk.Base.Outcome.{Outcome, ok, thrown, fault, ◌>>=◌}

-- `_resolver` and `_iterEndPoint`: none yet, the default iterator that a `resolve` which threw left
-- behind, or an endpoint.
pub data Resolved : Type 0 where
  unresolved exhausted : Resolved
  resolved : ℕ → Resolved

-- The `async_connect` under way: its session, and how many more are to follow.
pub record Attempt : Type 0 where
  pub session : ℕ
  pub remain : ℕ

pub record Connector : Type 0 where
  pub target_addr : List ℕ
  pub target_port : ℕ
  pub endpoint : Resolved
  pub attempt : Option Attempt
  pub next_session : ℕ
  pub connected : List ℕ
  pub failed : List ℕ
  pub update_time : ℕ
  pub update_waits : ℕ

-- `setTargetServer`
unfoldable pub set_target_server : List ℕ → ℕ → Connector → Connector
set_target_server addr port c = record c { target_addr = addr; target_port = port }

unfoldable pub new_connector : List ℕ → ℕ → ℕ → Connector
new_connector addr port update_time = record {
  target_addr = addr;
  target_port = port;
  endpoint = unresolved;
  attempt = none;
  next_session = 0;
  connected = [];
  failed = [];
  update_time = update_time;
  update_waits = 0;
}

-- "127.0.0.1"
abbrev pub loopback : List ℕ
loopback = 49 ∷ 50 ∷ 55 ∷ 46 ∷ 48 ∷ 46 ∷ 48 ∷ 46 ∷ 49 ∷ []

unfoldable pub or_loopback : List ℕ → List ℕ
or_loopback [] = loopback
or_loopback (b ∷ bs) = b ∷ bs

unfoldable pub keep_resolved : Option ℕ → Resolved
keep_resolved none = exhausted
keep_resolved (some e) = resolved e

unfoldable pub is_resolved : Resolved → Bool
is_resolved unresolved = false
is_resolved exhausted = false
is_resolved (resolved e) = true

-- `_iterEndPoint` after the `if (!_resolver)` of `setEndPoint`; `resolve` is none where it throws.
unfoldable pub resolve_once : (List ℕ → ℕ → Option ℕ) → List ℕ → ℕ → Resolved → Resolved
resolve_once resolve addr port unresolved = keep_resolved (resolve (or_loopback addr) port)
resolve_once resolve addr port exhausted = exhausted
resolve_once resolve addr port (resolved e) = resolved e

-- `setEndPoint`
unfoldable pub set_end_point : (List ℕ → ℕ → Option ℕ) → List ℕ → ℕ → Connector → Connector × Bool
set_end_point resolve addr port c =
    let endpoint = resolve_once resolve addr port c.endpoint in
    (record c { endpoint = endpoint }, is_resolved endpoint)

-- `createConnectSession`: opening the socket and its options may throw.
unfoldable pub create_connect_session : Bool → Connector → Outcome (Connector × ℕ)
create_connect_session false c = thrown
create_connect_session true c = ok (record c { next_session = c.next_session + 1 }, c.next_session)

-- `NetCommonObjects::expireTimerReady`, the count of waits alone.
unfoldable pub expire_timer_ready : Connector → Connector
expire_timer_ready c =
    if c.update_time == 0 then c else record c { update_waits = c.update_waits + 1 }

-- `connectSync`; `connects` is false where the connect, `saveEndPoint` or `startConnect` throws.
unfoldable pub connect_sync :
    (List ℕ → ℕ → Option ℕ) → Bool → Bool → Connector → Connector × Option ℕ
connect_sync resolve opens connects c =
    let (c', found) = set_end_point resolve c.target_addr c.target_port c in
    if found
    then (elim (create_connect_session opens c') [
      | ok (c'', session) ↦
          if connects
          then (
            expire_timer_ready (record c'' { connected = c''.connected ++ session ∷ [] }),
            some session,
          )
          else (c'', none)
      | thrown ↦ (c', none)
      | fault ↦ (c', none)
    ])
    else (c', none)

-- The attempt for the first of `count` sessions.
abbrev pub next_attempt : ℕ → ℕ → Option Attempt
next_attempt session count =
    some (record { session = session; remain = to_uint16 (count + 2 ^ 16 - 1) })

-- `connectAsync`. `sessionCnt - 1` is an `int` that the handler takes as `uint16_t`.
unfoldable pub connect_async : (List ℕ → ℕ → Option ℕ) → Bool → ℕ → Connector → Connector × Bool
connect_async resolve opens count c =
    let (c', found) = set_end_point resolve c.target_addr c.target_port c in
    if found
    then (elim (create_connect_session opens c') [
      | ok (c'', session) ↦
          (expire_timer_ready (record c'' { attempt = next_attempt session count }), true)
      | thrown ↦ (c', false)
      | fault ↦ (c', false)
    ])
    else (c', false)

-- The next attempt of `handleConnectAsync`.
unfoldable pub connect_next : Bool → ℕ → Connector → Connector × Bool
connect_next opens remain c = elim (create_connect_session opens c) [
  | ok (c', session) ↦ (record c' { attempt = next_attempt session remain }, true)
  | thrown ↦ (c, false)
  | fault ↦ (c, false)
]

-- What asio and the socket answer when an attempt completes.
pub record Answer : Type 0 where
  pub is_open : Bool
  pub error : Bool
  -- `saveEndPoint` or `startConnect` throws
  pub gone : Bool
  -- the next session's socket opens
  pub opens : Bool

-- `handleConnectAsync`
unfoldable pub handle_connect_async : Answer → Attempt → Connector → Outcome (Connector × Bool)
handle_connect_async w t c =
    if w.is_open
    then if w.error
      then ok (record c { failed = c.failed ++ t.session ∷ [] }, false)
      else if w.gone
      then thrown
      else (let c' = record c { connected = c.connected ++ t.session ∷ [] } in
          if ltb 0 t.remain then ok (connect_next w.opens t.remain c') else ok (c', true))
    else ok (record c { failed = c.failed ++ t.session ∷ [] }, false)

-- The attempt under way completes.
unfoldable pub complete_attempt : Option Attempt → Answer → Connector → Outcome Connector
complete_attempt none w c = ok c
complete_attempt (some t) w c =
    handle_connect_async w t (record c { attempt = none }) >>= (λ (c', result). ok c')

unfoldable pub complete_next : Answer → Connector → Outcome Connector
complete_next w c = complete_attempt c.attempt w c

unfoldable pub run_attempts : List Answer → Connector → Outcome Connector
run_attempts [] c = ok c
run_attempts (w ∷ ws) c = complete_next w c >>= run_attempts ws
