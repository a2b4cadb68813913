-- ===== src/Session/Moves.antt =====
-- What each call of include/net/session.hpp does to the state and to the log of a session.
use mlnsdk.Base.{
  to_uint64, ltb, ◌<◌, ◌⊎◌, if◌then◌else◌, ℕ, ◌+◌, ◌≤◌, ◌≡◌, inl, inr, Option-cases, Bool, List, [],
  ◌∷◌, arith,
}
use mlnsdk.Session.Types.{
  Session, SocketStatus, open_status, pending_close, closed, ErrorCode, success, Shutdown,
  send_side, Task, dispatch_task, close_task, read_task,
}
use mlnsdk.Session.{
  renew_expire_time, handle_read_error, handle_read_success, handle_read, handle_write, on_expired,
  try_close_by_failed, on_close, close_reserve, on_close_reserve_time, send_byte_stream, send_raw,
  send_fixed_buffer, set_user, handle_read_retry_max,
}
use mlnsdk.Session.Events.{
  Event, DispatchCallback, session_dispatch, run_task, pop_task, step, Ensures, Ensures-map, closes,
  retries, arms, AreQuiet,
}

-- Closes that are still to be told.
abbrev pub alive : SocketStatus → ℕ
alive open_status = 1
alive pending_close = 1
alive closed = 0

-- The order in which a session passes through its states.
abbrev pub rank : SocketStatus → ℕ
rank open_status = 0
rank pending_close = 1
rank closed = 2

-- What one call does: the close is told once, when the session leaves its last live state; no state
-- comes back; the keep-alive timer is armed only with a time to keep alive; and a failed read is
-- posted again only while fewer than five were counted.
pub record Moves (s t : Session) : Type 0 where
  pub told : closes t.log + alive t.status ≡ closes s.log + alive s.status
  pub ordered : rank s.status ≤ rank t.status
  pub same_time : t.keep_alive_time ≡ s.keep_alive_time
  pub armed : (arms t.log ≡ arms s.log) ⊎ (0 < s.keep_alive_time)
  pub counted :
      ((t.retry_count ≡ s.retry_count) × (retries t.log ≡ retries s.log))
      ⊎ ((t.retry_count ≡ to_uint64 (s.retry_count + 1))
          × (retries t.log
              ≡ retries s.log + (if ltb s.retry_count handle_read_retry_max then 1 else 0)))

on_close-Moves : (s : Session) → Ensures (Moves s) (on_close s)
unfolding on_close
on_close-Moves s = ground arith

try_close-Moves : (what : Shutdown) (s : Session) → Moves s (try_close_by_failed what s)
unfolding try_close_by_failed
try_close-Moves what s = ground arith

renew-Moves : (s : Session) → Moves s (renew_expire_time s)
unfolding renew_expire_time
renew-Moves s = ground arith

handle_read_error-Moves :
    (ec : ErrorCode) (bytes : List ℕ) (s : Session) → Moves s (handle_read_error ec bytes s)
unfolding handle_read_error
handle_read_error-Moves ec bytes s = ground arith

handle_read_success-Moves :
    (bytes : List ℕ) (s : Session) → Ensures (Moves s) (handle_read_success bytes s)
unfolding handle_read_success
handle_read_success-Moves bytes s = ground arith

handle_read-Moves :
    (ec : ErrorCode) (bytes : List ℕ) (s : Session) → Ensures (Moves s) (handle_read ec bytes s)
unfolding handle_read
handle_read-Moves success bytes s = handle_read_success-Moves bytes s
handle_read-Moves ec bytes s = handle_read_error-Moves ec bytes s

handle_write-Moves : (ec : ErrorCode) (s : Session) → Moves s (handle_write ec s)
unfolding handle_write
handle_write-Moves success s = renew-Moves s
handle_write-Moves ec s = try_close-Moves send_side s

on_expired-Moves : (ec : ErrorCode) (s : Session) → Moves s (on_expired ec s)
unfolding on_expired
on_expired-Moves success s = ground arith
on_expired-Moves ec s = ground arith

on_close_reserve_time-Moves :
    (ec : ErrorCode) (post : Bool) (s : Session)
    → Ensures (Moves s) (on_close_reserve_time ec post s)
unfolding on_close_reserve_time
on_close_reserve_time-Moves ec post s = ground arith

send_byte_stream-Moves :
    (bytes : List ℕ) (header : Bool) (s : Session)
    → Ensures (Moves s) (send_byte_stream bytes header s)
unfolding send_byte_stream
send_byte_stream-Moves bytes header s = ground arith

send_raw-Moves : (bytes : List ℕ) (s : Session) → Ensures (Moves s) (send_raw bytes s)
unfolding send_raw
send_raw-Moves bytes s = ground arith

module _ (callback : DispatchCallback) (quiet : AreQuiet callback) where
  run_task-Moves : (t : Task) (s : Session) → Ensures (Moves s) (run_task callback t s)
  unfolding run_task session_dispatch
  run_task-Moves dispatch_task s = elim (Option-cases s.recv_stream) [
    | inl e ↦ ground arith
    | inr (b, e) ↦ ground (arith, quiet s b)
  ]
  run_task-Moves close_task s = on_close-Moves s
  run_task-Moves (read_task ec bytes) s = handle_read-Moves ec bytes s

  pop_task-Moves : (q : List Task) (s : Session) → Ensures (Moves s) (pop_task callback q s)
  unfolding pop_task
  pop_task-Moves [] s = ground arith
  pop_task-Moves (t ∷ q) s =
      let s' : Session = record s { queue = q } in
      Ensures-map (Moves s') (Moves s) _
        (λ u a. record {
          told = a.told;
          ordered = a.ordered;
          same_time = a.same_time;
          armed = a.armed;
          counted = a.counted;
        })
        (run_task-Moves t s')

  -- Every call but the start.
  pub step-Moves : (e : Event) (s : Session) → Ensures (Moves s) (step callback e s)
  unfolding step close_reserve send_fixed_buffer set_user
  step-Moves (Event.received ec bytes) s = handle_read-Moves ec bytes s
  step-Moves (Event.wrote ec) s = handle_write-Moves ec s
  step-Moves (Event.expired ec) s = on_expired-Moves ec s
  step-Moves (Event.reserve_elapsed ec post) s = on_close_reserve_time-Moves ec post s
  step-Moves (Event.failed what) s = try_close-Moves what s
  step-Moves Event.task s = pop_task-Moves s.queue s
  step-Moves Event.close s = on_close-Moves s
  step-Moves (Event.reserves ms) s = ground arith
  step-Moves (Event.sends bytes header) s = send_byte_stream-Moves bytes header s
  step-Moves (Event.sends_raw bytes) s = send_raw-Moves bytes s
  step-Moves (Event.sends_fixed bytes) s = ground arith
  step-Moves (Event.sets_user u) s = ground arith
