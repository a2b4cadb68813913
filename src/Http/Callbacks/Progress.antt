-- ===== src/Http/Callbacks/Progress.antt =====
-- When a connection that httpServer.hpp serves by callbacks goes on.
use mlnsdk.Base.{
  ℕ, zero, suc, ◌≡◌, ◌≢◌, refl, Bool, true, false, ◌||◌, List, [], ◌∷◌, ◌++◌, map, arith,
}
use mlnsdk.Http.Message.{Request, Response}
use mlnsdk.Http.Blocking.{
  Read, request, end_of_stream, read_error, Ending, waiting, shut_down, failed_read, failed_write,
}
use mlnsdk.Http.Callbacks.{
  Connection, Completion, read_done, write_done, complete, complete_all, complete_read,
  complete_write, on_read, on_write, do_read, do_close, send_all, run,
}
use mlnsdk.Http.Callbacks.Agreement.{still, stays_still}

abbrev pub is_waiting : Ending → Bool
is_waiting waiting = true
is_waiting shut_down = false
is_waiting failed_read = false
is_waiting failed_write = false

abbrev pub is_some_write : List Bool → Bool
is_some_write [] = false
is_some_write (w ∷ ws) = true

abbrev pub is_some_read : ℕ → Bool
is_some_read zero = false
is_some_read (suc n) = true

-- A connection that waits has a read or a write under way, so a completion is to come.
unfoldable GoesOn : Connection → Type 0
GoesOn c = is_waiting c.ending ≡ true → (is_some_read c.reads || is_some_write c.writes) ≡ true

module _ (handle : Request → List Response) (need_eof : Response → Bool) where
  module _ (answers : (req : Request) → handle req ≢ []) where
    some_sent :
        (ws : List Bool) (rs : List Response)
        → rs ≢ []
        → is_some_write (ws ++ map need_eof rs) ≡ true
    some_sent [] [] h = absurd (h refl)
    some_sent [] (r ∷ rs) h = refl
    some_sent (w ∷ ws) rs h = refl

    on_read-GoesOn :
        (r : Read) (n : ℕ) (c : Connection)
        → GoesOn (on_read handle need_eof r (record c { reads = n }))
    unfolding GoesOn on_read do_close send_all
    on_read-GoesOn end_of_stream n c h = cc
    on_read-GoesOn read_error n c h = cc
    on_read-GoesOn (request req) n c h =
        rw (some_sent c.writes (handle req) (answers req)) (ground arith)

    on_write-GoesOn : (close error : Bool) (c : Connection) → GoesOn (on_write close error c)
    unfolding GoesOn on_write do_close do_read
    on_write-GoesOn close true c h = cc
    on_write-GoesOn true false c h = cc
    on_write-GoesOn false false c h = refl

    complete-GoesOn :
        (e : Completion) (c : Connection) → GoesOn c → GoesOn (complete handle need_eof e c)
    unfolding complete complete_read complete_write
    complete-GoesOn (read_done r) c g =
        elim (c.reads) as (λ n. GoesOn (complete_read handle need_eof n r c)) [
          | zero ↦ g
          | suc n ↦ on_read-GoesOn r n c
        ]
    complete-GoesOn (write_done error) c g =
        elim (c.writes) as (λ ws. GoesOn (complete_write ws error c)) [
          | [] ↦ g
          | close ∷ later ↦ on_write-GoesOn close error (record c { writes = later })
        ]

    complete_all-GoesOn :
        (es : List Completion) (c : Connection)
        → GoesOn c
        → GoesOn (complete_all handle need_eof es c)
    unfolding complete_all
    complete_all-GoesOn [] c g = g
    complete_all-GoesOn (e ∷ es) c g =
        complete_all-GoesOn es (complete handle need_eof e c) (complete-GoesOn e c g)

    -- If every request is answered, a connection that still waits after any completions has a read or
    -- a write under way.
    pub connection_goes_on :
        (es : List Completion)
        → is_waiting (complete_all handle need_eof es run).ending ≡ true
        → let c = complete_all handle need_eof es run in
          (is_some_read c.reads || is_some_write c.writes) ≡ true
    unfolding GoesOn run do_read
    connection_goes_on es = complete_all-GoesOn es run (λ h. refl)

  -- After a first request that is answered by nothing, nothing is under way: the connection waits, with
  -- nothing sent, whatever Beast would complete.
  pub silence_stalls :
      (req : Request) (es : List Completion)
      → handle req ≡ []
      → complete_all handle need_eof (read_done (request req) ∷ es) run ≡ still [] waiting
  unfolding complete_all complete complete_read run do_read on_read send_all still
  silence_stalls req es quiet = rw quiet (stays_still handle need_eof [] waiting es)
