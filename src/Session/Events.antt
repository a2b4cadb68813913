-- ===== src/Session/Events.antt =====
-- The calls that reach a session after its start, in any order: completions of what it started, its
-- timers, the tasks of its strand, and the public methods that a program calls.
use mlnsdk.Base.{ℕ, ◌+◌, ◌≡◌, Bool, Option, none, some, List, [], ◌∷◌}
use mlnsdk.Base.Outcome.{Outcome, ok, thrown, fault, ◌>>=◌}
use mlnsdk.ByteStream.{ByteStream}
use mlnsdk.Session.Types.{
  Session, ErrorCode, Shutdown, Task, dispatch_task, close_task, read_task, Effect, async_read,
  async_write, arm_keep_alive, arm_close_reserve, cancel_timers, close_socket, close_websocket,
  retried, post_callback, shutdown, event_close, event_expired,
}
use mlnsdk.Session.{
  handle_read, handle_write, on_expired, try_close_by_failed, on_close, close_reserve,
  on_close_reserve_time, send_byte_stream, send_raw, send_fixed_buffer, set_user,
}

pub data Event : Type 0 where
  received : ErrorCode → List ℕ → Event
  wrote expired : ErrorCode → Event
  reserve_elapsed : ErrorCode → Bool → Event
  failed : Shutdown → Event
  task close : Event
  reserves : ℕ → Event
  sends : List ℕ → Bool → Event
  sends_raw sends_fixed : List ℕ → Event
  sets_user : Option ℕ → Event

-- `_dispatchCallback`, which may change the session and its stream.
abbrev pub DispatchCallback : Type 0
DispatchCallback = Session → ByteStream → Session

module _ (callback : DispatchCallback) where
  -- `Session::dispatch` with the stream that was bound to it.
  unfoldable pub session_dispatch : Session → Outcome Session
  session_dispatch s = elim s.recv_stream [ none ↦ fault | some b ↦ ok (callback s b) ]

  unfoldable pub run_task : Task → Session → Outcome Session
  run_task dispatch_task s = session_dispatch s
  run_task close_task s = on_close s
  run_task (read_task ec bytes) s = handle_read ec bytes s

  unfoldable pub pop_task : List Task → Session → Outcome Session
  pop_task [] s = ok s
  pop_task (t ∷ q) s = run_task t (record s { queue = q })

  unfoldable pub step : Event → Session → Outcome Session
  step (received ec bytes) s = handle_read ec bytes s
  step (wrote ec) s = ok (handle_write ec s)
  step (expired ec) s = ok (on_expired ec s)
  step (reserve_elapsed ec post) s = on_close_reserve_time ec post s
  step (failed what) s = ok (try_close_by_failed what s)
  step task s = pop_task s.queue s
  step close s = on_close s
  step (reserves ms) s = ok (close_reserve ms s)
  step (sends bytes header) s = send_byte_stream bytes header s
  step (sends_raw bytes) s = send_raw bytes s
  step (sends_fixed bytes) s = ok (send_fixed_buffer bytes s)
  step (sets_user u) s = ok (set_user u s)

  unfoldable pub run : List Event → Session → Outcome Session
  run [] s = ok s
  run (e ∷ es) s = step e s >>= run es

-- What holds of the session that a call leaves, if the call returns.
abbrev pub Ensures : (Session → Type 0) → Outcome Session → Type 0
Ensures P (ok s) = P s
Ensures P thrown = Unit
Ensures P fault = Unit

pub Ensures-map :
    (P Q : Session → Type 0) (r : Outcome Session)
    → ((s : Session) → P s → Q s)
    → Ensures P r
    → Ensures Q r
Ensures-map P Q (ok s) f h = f s h
Ensures-map P Q thrown f h = tt
Ensures-map P Q fault f h = tt

pub Ensures-bind :
    (P Q : Session → Type 0) (r : Outcome Session) (k : Session → Outcome Session)
    → Ensures P r
    → ((s : Session) → P s → Ensures Q (k s))
    → Ensures Q (r >>= k)
Ensures-bind P Q (ok s) k h f = f s h
Ensures-bind P Q thrown k h f = tt
Ensures-bind P Q fault k h f = tt

pub Ensures-ok :
    (P : Session → Type 0) {r : Outcome Session} {s : Session} → Ensures P r → r ≡ ok s → P s
Ensures-ok P h e = rw e at h

-- How often the event receiver was told of the close.
abbrev pub closes : List Effect → ℕ
closes [] = 0
closes (event_close ∷ l) = closes l + 1
closes (async_read _ ∷ l) = closes l
closes (async_write _ ∷ l) = closes l
closes (arm_keep_alive _ ∷ l) = closes l
closes (arm_close_reserve _ ∷ l) = closes l
closes (cancel_timers ∷ l) = closes l
closes (close_socket ∷ l) = closes l
closes (close_websocket ∷ l) = closes l
closes (retried ∷ l) = closes l
closes (post_callback ∷ l) = closes l
closes (shutdown _ ∷ l) = closes l
closes (event_expired ∷ l) = closes l

-- How often a failed read was posted again.
abbrev pub retries : List Effect → ℕ
retries [] = 0
retries (retried ∷ l) = retries l + 1
retries (async_read _ ∷ l) = retries l
retries (async_write _ ∷ l) = retries l
retries (arm_keep_alive _ ∷ l) = retries l
retries (arm_close_reserve _ ∷ l) = retries l
retries (cancel_timers ∷ l) = retries l
retries (close_socket ∷ l) = retries l
retries (close_websocket ∷ l) = retries l
retries (event_close ∷ l) = retries l
retries (post_callback ∷ l) = retries l
retries (shutdown _ ∷ l) = retries l
retries (event_expired ∷ l) = retries l

-- How often the keep-alive timer was armed.
abbrev pub arms : List Effect → ℕ
arms [] = 0
arms (arm_keep_alive _ ∷ l) = arms l + 1
arms (async_read _ ∷ l) = arms l
arms (async_write _ ∷ l) = arms l
arms (retried ∷ l) = arms l
arms (arm_close_reserve _ ∷ l) = arms l
arms (cancel_timers ∷ l) = arms l
arms (close_socket ∷ l) = arms l
arms (close_websocket ∷ l) = arms l
arms (event_close ∷ l) = arms l
arms (post_callback ∷ l) = arms l
arms (shutdown _ ∷ l) = arms l
arms (event_expired ∷ l) = arms l

-- What the public methods that a callback has at hand leave alone: all but the stream, the pending
-- count, the user, and log entries of other kinds.
pub record IsQuiet (s t : Session) : Type 0 where
  pub status : t.status ≡ s.status
  pub keep_alive_time : t.keep_alive_time ≡ s.keep_alive_time
  pub retry_count : t.retry_count ≡ s.retry_count
  pub queue : t.queue ≡ s.queue
  pub closes_same : closes t.log ≡ closes s.log
  pub retries_same : retries t.log ≡ retries s.log
  pub arms_same : arms t.log ≡ arms s.log

abbrev pub AreQuiet : DispatchCallback → Type 0
AreQuiet callback = (s : Session) (b : ByteStream) → IsQuiet s (callback s b)
