-- ===== src/Http/Blocking.antt =====
-- httpServer.hpp: a connection served by `do_session` on a thread of its own. What Beast reads is a
-- list of rounds; `need_eof` is Beast's test of a response.
use mlnsdk.Base.{Bool, true, false, List, [], ◌∷◌, ◌++◌, if◌then◌else◌}
use mlnsdk.Http.Message.{Request, Response}

-- How reading a request ends.
pub data Read : Type 0 where
  request : Request → Read
  end_of_stream read_error : Read

-- A read, and whether the last write of the responses to it reports an error.
pub record Round : Type 0 where
  pub read : Read
  pub write_error : Bool

-- How a connection stands: it still waits for a request, was shut down, or was left after an error.
pub data Ending : Type 0 where
  waiting shut_down failed_read failed_write : Ending

pub record Served : Type 0 where
  pub sent : List Response
  pub ending : Ending

-- `_close`, which every response overwrites.
unfoldable pub closing : (Response → Bool) → Bool → List Response → Bool
closing need_eof close [] = close
closing need_eof close (r ∷ rs) = closing need_eof (need_eof r) rs

abbrev pub is_empty : List Response → Bool
is_empty [] = true
is_empty (r ∷ rs) = false

abbrev pub sending : List Response → Served → Served
sending rs v = record v { sent = rs ++ v.sent }

-- `do_session`; `handle` is `handle_request` for the server's handlers.
unfoldable pub do_session :
    (Request → List Response) → (Response → Bool) → Bool → List Round → Served
do_session handle need_eof close [] = record { sent = []; ending = waiting }
do_session handle need_eof close (r ∷ rounds) = elim (r.read) [
  | end_of_stream ↦ record { sent = []; ending = shut_down }
  | read_error ↦ record { sent = []; ending = failed_read }
  | request req ↦
      let rs = handle req in
      let close' = closing need_eof close rs in
      let rest = do_session handle need_eof close' rounds in
      sending rs (
        if (if is_empty rs then false else r.write_error)
        then record { sent = []; ending = failed_write }
        else if close'
        then record { sent = []; ending = shut_down }
        else rest)
]
