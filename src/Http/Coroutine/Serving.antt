-- ===== src/Http/Coroutine/Serving.antt =====
-- httpServerCoro.hpp: the coroutines `do_listen` and `do_session`.
use mlnsdk.Base.{
  ℕ, suc, ◌≡◌, refl, ap, Bool, true, false, none, some, List, [], ◌∷◌, ◌++◌, if◌then◌else◌,
}
use mlnsdk.Http.Message.{Request, Response}
use mlnsdk.Http.Routing.{Reply}
use mlnsdk.Http.Blocking.{
  Read, request, end_of_stream, read_error, Round, Ending, waiting, shut_down, failed_read,
  failed_write, Served, do_session, closing, is_empty,
}
use mlnsdk.Http.Listener.{Errors, Stage, reached, listening, created, opened, reusing, bound}

-- How a coroutine of a connection stands: the endings of the other server, where `shut_down` is
-- followed by closing the socket, or it was left by an exception.
pub data CoroEnding : Type 0 where
  ended : Ending → CoroEnding
  left_by_exception : CoroEnding

pub record CoroServed : Type 0 where
  pub sent : List Response
  pub ending : CoroEnding

abbrev pub coro_sending : List Response → CoroServed → CoroServed
coro_sending rs v = record v { sent = rs ++ v.sent }

-- `do_session`; `handle` is `handle_request` for the server's handlers.
unfoldable pub coro_session : (Request → Reply) → (Response → Bool) → Bool → List Round → CoroServed
coro_session handle need_eof close [] = record { sent = []; ending = ended waiting }
coro_session handle need_eof close (r ∷ rounds) = elim (r.read) [
  | end_of_stream ↦ record { sent = []; ending = ended shut_down }
  | read_error ↦ record { sent = []; ending = ended failed_read }
  | request req ↦
      let reply = handle req in
      let close' = closing need_eof close reply.sent in
      let rest = coro_session handle need_eof close' rounds in
      coro_sending reply.sent (elim (reply.threw) [
        | some what ↦ record { sent = []; ending = left_by_exception }
        | none ↦
            if (if is_empty reply.sent then false else r.write_error)
            then record { sent = []; ending = ended failed_write }
            else if close'
            then record { sent = []; ending = ended shut_down }
            else rest
      ])
]

-- What an accept comes to: the event loop was stopped before it, it has an error, or there is a
-- connection.
pub data Accepted : Type 0 where
  stopped accept_error connection : Accepted

-- The loop of `do_listen`: how many connections a coroutine is spawned for.
unfoldable pub accept_loop : List Accepted → ℕ
accept_loop [] = 0
accept_loop (stopped ∷ later) = 0
accept_loop (accept_error ∷ later) = accept_loop later
accept_loop (connection ∷ later) = let rest = accept_loop later in suc rest

abbrev pub spawned : Stage → List Accepted → ℕ
spawned created later = 0
spawned opened later = 0
spawned reusing later = 0
spawned bound later = 0
spawned listening later = accept_loop later

-- `do_listen`
unfoldable pub do_listen : Errors → List Accepted → ℕ
do_listen e accepts = spawned (reached e) accepts

-- What the coroutine makes of what the thread leaves.
unfoldable pub of_thread : Served → CoroServed
of_thread v = record { sent = v.sent; ending = ended v.ending }

-- Handlers that do not throw are served as `do_session` of httpServer.hpp serves them.
module _ (handle : Request → List Response) (need_eof : Response → Bool) where
  abbrev pub quiet : Request → Reply
  quiet req = record { sent = handle req; threw = none }

  of_thread-ifs :
      (failed last : Bool) (rest : Served)
      → (if failed
          then record { sent = []; ending = ended failed_write }
          else if last
          then record { sent = []; ending = ended shut_down }
          else of_thread rest)
        ≡ of_thread (
            if failed
            then record { sent = []; ending = failed_write }
            else if last
            then record { sent = []; ending = shut_down }
            else rest)
  unfolding of_thread
  of_thread-ifs true last rest = refl
  of_thread-ifs false true rest = refl
  of_thread-ifs false false rest = refl

  round_same :
      (read : Read) (error close : Bool) (rounds : List Round)
      → ((c : Bool)
          → coro_session quiet need_eof c rounds ≡ of_thread (do_session handle need_eof c rounds))
      → let r : Round = record { read = read; write_error = error } in
        coro_session quiet need_eof close (r ∷ rounds)
        ≡ of_thread (do_session handle need_eof close (r ∷ rounds))
  unfolding coro_session do_session of_thread
  round_same end_of_stream error close rounds ih = refl
  round_same read_error error close rounds ih = refl
  round_same (request req) error close rounds ih =
      let c = closing need_eof close (handle req) in
      let failed = if is_empty (handle req) then false else error in
      rw (ih c) (
        ap (coro_sending (handle req))
          (of_thread-ifs failed c (do_session handle need_eof c rounds)))

  -- If no handler throws, the coroutine's do_session sends the responses that the thread's
  -- do_session sends on the same rounds and ends alike.
  pub coro_session-do_session :
      (close : Bool) (rounds : List Round)
      → coro_session quiet need_eof close rounds
        ≡ of_thread (do_session handle need_eof close rounds)
  unfolding coro_session do_session of_thread
  coro_session-do_session close [] = refl
  coro_session-do_session close (r ∷ rounds) =
      round_same r.read r.write_error close rounds (λ c. coro_session-do_session c rounds)
