-- ===== src/Http/Callbacks/Agreement.antt =====
-- The two ways in which httpServer.hpp serves a connection, compared.
use mlnsdk.Base.{
  ◌≡◌, refl, sym, ◌∙◌, Bool, true, false, List, [], ◌∷◌, ◌++◌, append_assoc, append-nil,
  if◌then◌else◌,
}
use mlnsdk.Http.Message.{Request, Response}
use mlnsdk.Http.Blocking.{
  Read, request, end_of_stream, read_error, Round, Ending, waiting, shut_down, failed_read,
  failed_write, do_session, closing, sending,
}
use mlnsdk.Http.Callbacks.{
  Connection, Completion, read_done, write_done, complete, complete_all, complete_read,
  complete_write, on_read, on_write, do_read, do_close, send_all, run,
}

-- The completions that Beast makes in these rounds: each read, and then the write of the response.
unfoldable pub completions : List Round → List Completion
completions [] = []
completions (r ∷ rounds) = read_done r.read ∷ write_done r.write_error ∷ completions rounds

-- A connection on which nothing is under way takes no notice of completions.
unfoldable pub still : List Response → Ending → Connection
still sent ending = record { reads = 0; writes = []; sent = sent; ending = ending }

module _ (handle : Request → List Response) (need_eof : Response → Bool) where
  pub stays_still :
      (sent : List Response) (ending : Ending) (es : List Completion)
      → complete_all handle need_eof es (still sent ending) ≡ still sent ending
  unfolding complete_all complete complete_read complete_write still
  stays_still sent ending [] = refl
  stays_still sent ending (read_done r ∷ es) = stays_still sent ending es
  stays_still sent ending (write_done e ∷ es) = stays_still sent ending es

  -- Both serve the rounds and are left with the same responses and the same ending.
  abbrev pub Alike : List Round → List Response → Type 0
  Alike rounds before =
      let c = complete_all handle need_eof (completions rounds) (record run { sent = before }) in
      let v = do_session handle need_eof false rounds in
      (c.sent ≡ before ++ v.sent) × (c.ending ≡ v.ending)

module _ (need_eof : Response → Bool) (answer : Request → Response) where
  abbrev one : Request → List Response
  one req = answer req ∷ []

  Alike-still :
      (sent : List Response) (ending : Ending) (es : List Completion)
      → let c = complete_all one need_eof es (still sent ending) in
        (c.sent ≡ sent) × (c.ending ≡ ending)
  unfolding still
  Alike-still sent ending es = rw (stays_still one need_eof sent ending es) (refl, refl)

  Alike-request :
      (a : Response) (error close : Bool) (rounds : List Round) (before : List Response)
      → ((sent : List Response) → Alike one need_eof rounds sent)
      → let c = complete_all one need_eof (completions rounds) (
          on_write close error
            (record { reads = 0; writes = []; sent = before ++ a ∷ []; ending = waiting })) in
        let v = sending (a ∷ []) (
          if error
          then record { sent = []; ending = failed_write }
          else if close
          then record { sent = []; ending = shut_down }
          else do_session one need_eof close rounds) in
        (c.sent ≡ before ++ v.sent) × (c.ending ≡ v.ending)
  unfolding on_write do_close do_read run still
  Alike-request a true close rounds before ih =
      Alike-still (before ++ a ∷ []) failed_write (completions rounds)
  Alike-request a false true rounds before ih =
      Alike-still (before ++ a ∷ []) shut_down (completions rounds)
  Alike-request a false false rounds before ih =
      let (sent, ending) = ih (before ++ a ∷ []) in
      (sent ∙ append_assoc before (a ∷ []) (do_session one need_eof false rounds).sent, ending)

  Alike-round :
      (read : Read) (error : Bool) (rounds : List Round) (before : List Response)
      → ((sent : List Response) → Alike one need_eof rounds sent)
      → Alike one need_eof (record { read = read; write_error = error } ∷ rounds) before
  unfolding complete_all complete complete_read complete_write completions on_read on_write send_all
      do_read do_close run do_session closing still
  Alike-round end_of_stream error rounds before ih =
      let (sent, ending) = Alike-still before shut_down (completions rounds) in
      (sent ∙ sym (append-nil before), ending)
  Alike-round read_error error rounds before ih =
      let (sent, ending) = Alike-still before failed_read (completions rounds) in
      (sent ∙ sym (append-nil before), ending)
  Alike-round (request req) error rounds before ih =
      Alike-request (answer req) error (need_eof (answer req)) rounds before ih

  Alike-all : (rounds : List Round) (before : List Response) → Alike one need_eof rounds before
  unfolding complete_all completions run do_session
  Alike-all [] before = (sym (append-nil before), refl)
  Alike-all (r ∷ rounds) before = Alike-round r.read r.write_error rounds before (Alike-all rounds)

  -- If every request is answered by exactly one response, the callbacks send on all rounds of
  -- reads and writes the responses that do_session sends, and leave the connection with the same
  -- ending.
  pub served_alike :
      (handle : Request → List Response)
      → ((req : Request) → handle req ≡ answer req ∷ [])
      → (rounds : List Round)
      → let c = complete_all handle need_eof (completions rounds) run in
        let v = do_session handle need_eof false rounds in (c.sent ≡ v.sent) × (c.ending ≡ v.ending)
  unfolding run do_read
  served_alike handle once rounds =
      let same : handle ≡ one = λ i req. once req i in rw same (Alike-all rounds [])
