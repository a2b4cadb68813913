-- ===== src/Http/Callbacks.antt =====
-- httpServer.hpp: a connection served by the callbacks of `session`. Reads and writes are counted
-- while they are under way: a write remembers whether the connection closes after it.
pub mod Agreement
pub mod Progress
use mlnsdk.Base.{ℕ, zero, suc, Bool, true, false, List, [], ◌∷◌, ◌++◌, map}
use mlnsdk.Http.Message.{Request, Response}
use mlnsdk.Http.Blocking.{
  Read, request, end_of_stream, read_error, Ending, waiting, shut_down, failed_read, failed_write,
}

pub record Connection : Type 0 where
  pub reads : ℕ
  pub writes : List Bool
  pub sent : List Response
  pub ending : Ending

-- `do_read`
unfoldable pub do_read : Connection → Connection
do_read c = record c { reads = suc c.reads }

-- `run` of a new session.
unfoldable pub run : Connection
unfolding do_read
run = do_read (record { reads = 0; writes = []; sent = []; ending = waiting })

-- `do_close`
unfoldable pub do_close : Connection → Connection
do_close c = record c { ending = shut_down }

-- `SendFuncAsync::send`, for each response.
unfoldable pub send_all : (Response → Bool) → List Response → Connection → Connection
send_all need_eof rs c = record c { writes = c.writes ++ map need_eof rs; sent = c.sent ++ rs }

-- `on_read`
unfoldable pub on_read :
    (Request → List Response) → (Response → Bool) → Read → Connection → Connection
unfolding send_all do_close
on_read handle need_eof end_of_stream c = do_close c
on_read handle need_eof read_error c = record c { ending = failed_read }
on_read handle need_eof (request req) c = send_all need_eof (handle req) c

-- `on_write`, given `close` and whether there is an error.
unfoldable pub on_write : Bool → Bool → Connection → Connection
unfolding do_read do_close
on_write close true c = record c { ending = failed_write }
on_write true false c = do_close c
on_write false false c = do_read c

-- What Beast completes: a read, or the oldest write. Nothing is completed that is not under way.
pub data Completion : Type 0 where
  read_done : Read → Completion
  write_done : Bool → Completion

unfoldable pub complete_read :
    (Request → List Response) → (Response → Bool) → ℕ → Read → Connection → Connection
complete_read handle need_eof zero r c = c
complete_read handle need_eof (suc n) r c = on_read handle need_eof r (record c { reads = n })

unfoldable pub complete_write : List Bool → Bool → Connection → Connection
complete_write [] error c = c
complete_write (close ∷ later) error c = on_write close error (record c { writes = later })

unfoldable pub complete :
    (Request → List Response) → (Response → Bool) → Completion → Connection → Connection
complete handle need_eof (read_done r) c = complete_read handle need_eof c.reads r c
complete handle need_eof (write_done error) c = complete_write c.writes error c

unfoldable pub complete_all :
    (Request → List Response) → (Response → Bool) → List Completion → Connection → Connection
complete_all handle need_eof [] c = c
complete_all handle need_eof (e ∷ es) c =
    complete_all handle need_eof es (complete handle need_eof e c)
