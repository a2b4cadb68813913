-- ===== src/Session/Timers.antt =====
-- The keep-alive timer, the retries of a failed read, and the reserved close.
use mlnsdk.Base.{
  ℕ, ◌+◌, ◌^◌, ◌≤◌, ◌<◌, ◌≡◌, Bool, true, false, Option, List, [], ◌∷◌, ◌++◌, if◌then◌else◌, length,
  arith,
}
use mlnsdk.Base.Outcome.{ok, returned_before}
use mlnsdk.ByteStream.{PacketManipulator}
use mlnsdk.Session.Types.{
  Session, open_status, closed, ErrorCode, event_close, cancel_timers, post_callback, SessionType,
}
use mlnsdk.Session.{
  create, start_accept, on_close, on_close_reserve_time, handle_read_retry_max, emit, close_effects,
}
use mlnsdk.Session.Events.{
  Event, DispatchCallback, step, run, Ensures, Ensures-bind, Ensures-ok, closes, retries, arms,
  AreQuiet,
}
use mlnsdk.Session.Moves.{Moves, step-Moves}

record IsUntimed (s : Session) : Type 0 where
  no_time : s.keep_alive_time ≡ 0
  never : arms s.log ≡ 0

started-IsUntimed :
    (type : SessionType) (manip : Option PacketManipulator) (receiver : Bool)
    (identity keep_alive_ms : ℕ)
    → IsUntimed (start_accept (create type manip receiver identity keep_alive_ms))
unfolding start_accept create
started-IsUntimed type manip receiver identity keep_alive_ms = ground arith

module _ (callback : DispatchCallback) (quiet : AreQuiet callback) where
  run-IsUntimed :
      (es : List Event) (s : Session) → IsUntimed s → Ensures IsUntimed (run callback es s)
  unfolding run
  run-IsUntimed [] s u = u
  run-IsUntimed (e ∷ es) s u =
      Ensures-bind (Moves s) IsUntimed (step callback e s) (run callback es)
        (step-Moves callback quiet e s) λ t m. run-IsUntimed es t (ground arith)

  -- With a quiet dispatch callback, every run of events from a session that was created and
  -- accepted has never armed the keep-alive timer, whatever keep-alive time it was created with.
  pub keep_alive_never_armed :
      (type : SessionType) (manip : Option PacketManipulator) (receiver : Bool)
      (identity keep_alive_ms : ℕ) (es : List Event) (t : Session)
      → run callback es (start_accept (create type manip receiver identity keep_alive_ms)) ≡ ok t
      → arms t.log ≡ 0
  keep_alive_never_armed type manip receiver identity keep_alive_ms es t e =
      (Ensures-ok IsUntimed
        (run-IsUntimed es _ (started-IsUntimed type manip receiver identity keep_alive_ms)) e).never

  -- With a quiet dispatch callback, from a session that counts its retries and has made at most 5,
  -- every run of events that returns and is too short for the counter to wrap has made at most 5
  -- retries in all, successful reads between them included.
  pub retries_bounded :
      (es : List Event) (s t : Session)
      → retries s.log ≤ s.retry_count
      → retries s.log ≤ handle_read_retry_max
      → s.retry_count + length es < 2 ^ 64
      → run callback es s ≡ ok t
      → retries t.log ≤ handle_read_retry_max
  unfolding run
  retries_bounded [] s t counted few room e = ground arith
  retries_bounded (x ∷ es) s t counted few room e =
      let (u, e', e'') = returned_before (step callback x s) (run callback es) e in
      let m : Moves s u = Ensures-ok (Moves s) (step-Moves callback quiet x s) e' in
      retries_bounded es u t (ground arith) (ground arith) (ground arith) e''

-- What `on_close` leaves of a live session.
abbrev closed_of : Session → Session
closed_of s =
    let s' = record s { status = closed; log = event_close ∷ cancel_timers ∷ s.log } in
    if s.socket_open
    then record s' { socket_open = false; log = close_effects s.session_type ++ s'.log }
    else s'

abbrev reserved_of : Bool → Session → Session
reserved_of post s = if post then emit post_callback (closed_of s) else closed_of s

-- On an open session with an event receiver, onCloseReserveTime closes the session and tells
-- onClose once more for every error code, operation_aborted included.
pub reserve_closes_on_any_code :
    (ec : ErrorCode) (post : Bool) (s : Session)
    → s.status ≡ open_status
    → s.has_receiver ≡ true
    → (t : Session) × (on_close_reserve_time ec post s ≡ ok t)
      × (t.status ≡ closed)
      × (closes t.log ≡ closes s.log + 1)
unfolding on_close_reserve_time on_close
reserve_closes_on_any_code ec post s started receiver =
    (reserved_of post s, ground arith, ground arith, ground arith)
