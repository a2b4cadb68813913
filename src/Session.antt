-- ===== src/Session.antt =====
-- include/net/session.hpp: one connection. The strand runs its posted tasks one at a time, so a
-- session is a record and each handler a function on it. What a handler asks of the sockets, the
-- timers and the event receiver is written to `log`, the newest first; what it posts to the strand
-- goes to the end of `queue`. The completions of the operations that it starts are later calls.
pub mod Types
pub mod Events
pub mod Moves
pub mod Lifecycle
pub mod Timers
pub mod Counting
pub mod Sparing
pub mod Pending
pub mod Peer
pub use Types.*
use mlnsdk.Base.{
  ℕ, ◌+◌, ◌-◌, ◌^◌, ◌&&◌, ◌||◌, Bool, true, false, not, Option, none, some, List, [], ◌∷◌, ◌++◌,
  ltb, if◌then◌else◌, length, to_uint64, sub_uint64,
}
use mlnsdk.Base.Outcome.{Outcome, ok, thrown, fault, ◌>>=◌}
use mlnsdk.ByteStream.{
  ByteStream, PacketManipulator, new_stream, new_packet_stream, default_buffer_size, size,
  read_data, write, set_header_size,
}

abbrev pub handle_read_retry_max : ℕ
handle_read_retry_max = 5

-- `create`: the keep-alive time that is passed is not stored.
unfoldable pub create : SessionType → Option PacketManipulator → Bool → ℕ → ℕ → Session
create type manip receiver identity keep_alive_ms = record {
  session_type = type;
  status = closed;
  keep_alive_time = 0;
  read_pending = 0;
  retry_count = 0;
  recv_stream = none;
  packet_manipulator = manip;
  has_receiver = receiver;
  socket_open = false;
  identity = identity;
  user = none;
  queue = [];
  log = [];
}

abbrev pub emit : Effect → Session → Session
emit e s = record s { log = e ∷ s.log }

abbrev pub post : Task → Session → Session
post t s = record s { queue = s.queue ++ t ∷ [] }

unfoldable pub renew_expire_time : Session → Session
renew_expire_time s =
    if ltb 0 s.keep_alive_time then emit (arm_keep_alive s.keep_alive_time) s else s

unfoldable pub start_accept : Session → Session
unfolding renew_expire_time
start_accept s = renew_expire_time (record s {
  recv_stream = some (new_stream default_buffer_size);
  status = open_status;
  socket_open = true;
  log = async_read s.session_type ∷ s.log;
})

unfoldable pub start_connect : SessionType → Session → Session
unfolding renew_expire_time
start_connect type s = renew_expire_time (record s {
  recv_stream = some (new_stream default_buffer_size);
  status = open_status;
  socket_open = true;
  log = async_read type ∷ s.log;
})

-- The bytes at `data()`, handed to `async_write`.
unfoldable pub write_out : ByteStream → Session → Outcome Session
write_out b s = do bytes ← read_data b (size b); ok (emit (async_write bytes) s)

unfoldable pub send : ByteStream → Session → Outcome Session
unfolding write_out
send b s = do b' ← set_header_size b; write_out b' s

unfoldable pub send_fixed_buffer : List ℕ → Session → Session
send_fixed_buffer bytes s = emit (async_write bytes) s

unfoldable pub send_raw : List ℕ → Session → Outcome Session
unfolding write_out
send_raw bytes s = do b ← write (new_stream default_buffer_size) bytes; write_out b s

unfoldable pub send_byte_stream : List ℕ → Bool → Session → Outcome Session
unfolding send
send_byte_stream bytes write_header s = do
  b ← new_packet_stream s.packet_manipulator write_header
  b' ← write b bytes
  send b' s

unfoldable pub on_expired : ErrorCode → Session → Session
on_expired success s = if is_open s.status && s.has_receiver then emit event_expired s else s
on_expired _ s = s

unfoldable pub try_close_by_failed : Shutdown → Session → Session
try_close_by_failed what s =
    let s' = if is_tcp s.session_type then emit (shutdown what) s else s in
    if is_open s.status
    then record s' {
      status = pending_close;
      log = cancel_timers ∷ s'.log;
      queue = s'.queue ++ close_task ∷ [];
    }
    else s'

-- `++_readHandlerPending`, `_postRetryCount++` and `_readHandlerPending--` are `size_t`.
unfoldable pub inc_read_handler_pending : Session → Session
inc_read_handler_pending s = record s { read_pending = to_uint64 (s.read_pending + 1) }

unfoldable pub dec_read_handler_pending : Session → Session
dec_read_handler_pending s = record s { read_pending = sub_uint64 s.read_pending 1 }

unfoldable pub handle_read_error : ErrorCode → List ℕ → Session → Session
unfolding try_close_by_failed
handle_read_error ec bytes s =
    if not (is_shut_down ec) && not (is_eof ec) && ltb 0 s.read_pending
    then (let s' = record s { retry_count = to_uint64 (s.retry_count + 1) } in
        if ltb s.retry_count handle_read_retry_max
        then emit retried (post (read_task ec bytes) s')
        else try_close_by_failed receive s')
    else try_close_by_failed receive s

unfoldable pub handle_read_success : List ℕ → Session → Outcome Session
unfolding inc_read_handler_pending renew_expire_time
handle_read_success bytes s = elim s.recv_stream [
  | none ↦ fault
  | some b ↦ do
    b' ← write b bytes
    let s' = inc_read_handler_pending (record s { recv_stream = some b' })
    ok (renew_expire_time (emit (async_read s.session_type) (post dispatch_task s')))
]

unfoldable pub handle_read : ErrorCode → List ℕ → Session → Outcome Session
unfolding handle_read_success handle_read_error
handle_read success bytes s = handle_read_success bytes s
handle_read ec bytes s = ok (handle_read_error ec bytes s)

unfoldable pub handle_write : ErrorCode → Session → Session
unfolding renew_expire_time try_close_by_failed
handle_write success s = renew_expire_time s
handle_write _ s = try_close_by_failed send_side s

abbrev pub close_effects : SessionType → List Effect
close_effects tcp = close_socket ∷ shutdown both ∷ []
close_effects websocket = close_websocket ∷ close_websocket ∷ []

-- The receiver is not tested here.
unfoldable pub on_close : Session → Outcome Session
on_close s =
    if is_closed s.status
    then ok s
    else if s.has_receiver
    then (let s' = record s { status = closed; log = event_close ∷ cancel_timers ∷ s.log } in
        ok (
          if s.socket_open
          then record s' { socket_open = false; log = close_effects s.session_type ++ s'.log }
          else s'))
    else fault

unfoldable pub close_reserve : ℕ → Session → Session
close_reserve ms s = emit (arm_close_reserve ms) s

-- `post` says whether there is a callback.
unfoldable pub on_close_reserve_time : ErrorCode → Bool → Session → Outcome Session
unfolding on_close
on_close_reserve_time ec post s =
    if is_open s.status
    then (on_close s >>= λ s'. ok (if post then emit post_callback s' else s'))
    else ok s

unfoldable pub set_user : Option ℕ → Session → Session
set_user u s = record s { user = u }
