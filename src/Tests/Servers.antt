-- ===== src/Tests/Servers.antt =====
-- Runs of httpServer.hpp and httpServerCoro.hpp.
use mlnsdk.Base.{
  ℕ, ◌≡◌, ◌≢◌, refl, ◌⊎◌, Bool, true, false, ◌||◌, Bool-cases, inl, inr, none, List, [], ◌∷◌,
  if◌then◌else◌,
}
use mlnsdk.Text.{codes, text_eq, find_text}
use mlnsdk.Http.Message.{get, Request, Response, body_response, failure}
use mlnsdk.Http.Routing.{
  Handler, HandlerMap, register_url, is_legal, has_dots, bad_request, not_found, catching,
  call_handler, handle_request, path_cat,
}
use mlnsdk.Http.Routing.Targets.{IsAbsolute, IsAbsolute-of_legal}
use mlnsdk.Http.Routing.Answers.{
  reply_of, IsReturned, IsFailed, IsUnknown, IsRefused, handle_request_lem,
}
use mlnsdk.Http.Routing.Registered.{registered_served}
use mlnsdk.Http.Blocking.{request, end_of_stream, Round, do_session}
use mlnsdk.Http.Callbacks.{
  Completion, read_done, write_done, complete_all, complete, complete_read, complete_write, on_read,
  on_write, send_all, do_read, run,
}
use mlnsdk.Http.Callbacks.Agreement.{completions, served_alike}
use mlnsdk.Http.Callbacks.Progress.{is_waiting, is_some_read, is_some_write, connection_goes_on}
use mlnsdk.Http.Coroutine.{CoroHandler, CoroHandlerMap, coro_handle_request}
use mlnsdk.Http.Coroutine.Answers.{
  IsHandled, IsMissing, IsIllegal, IsNoMethod, coro_handle_request_lem,
}
use mlnsdk.Http.Coroutine.Serving.{coro_session, of_thread, quiet, coro_session-do_session}

-- A handler that sends the body back, and one that sends nothing.
abbrev echo : Handler
echo headers body send = record { sent = body_response send body ∷ []; threw = none }

abbrev silent : Handler
silent headers body send = record { sent = []; threw = none }

abbrev url : List ℕ
url = codes "/test"

abbrev echoing : HandlerMap
echoing = (url, echo) ∷ []

abbrev keeping_silent : HandlerMap
keeping_silent = (url, silent) ∷ []

abbrev asked : Request
asked = record {
  method = get;
  target = url;
  version = 11;
  keep_alive = true;
  fields = (codes "Host", codes "Here") ∷ [];
  body = codes "{}";
}

abbrev no_text : List ℕ
no_text = []

abbrev no_handlers : HandlerMap
no_handlers = []

url-IsAbsolute : IsAbsolute url
unfolding is_legal has_dots
url-IsAbsolute = IsAbsolute-of_legal url refl

-- A server without handlers answers each request once.
abbrev sole_answer : Request → Response
sole_answer req = if is_legal req.target then not_found req else bad_request req

abbrev serve : Request → List Response
serve req = handle_request no_text no_text no_handlers req

serve_once : (req : Request) → serve req ≡ sole_answer req ∷ []
unfolding handle_request call_handler find_text
serve_once req = elim (Bool-cases (is_legal req.target)) [
  | inl legal ↦ rw legal refl
  | inr illegal ↦ rw illegal refl
]

serve_answers : (req : Request) → serve req ≢ []
serve_answers req h = cc (serve_once req)

abbrev ends : Response → Bool
ends r = false

abbrev rounds : List Round
rounds =
    record { read = request asked; write_error = false }
    ∷ record { read = request asked; write_error = true }
    ∷ record { read = end_of_stream; write_error = false }
    ∷ []

handle_request_example :
    let rs = handle_request no_text no_text echoing asked in
    (IsReturned no_text no_text echoing asked rs ⊎ IsFailed no_text no_text echoing asked rs)
    ⊎ (IsUnknown no_text no_text echoing asked rs ⊎ IsRefused no_text no_text echoing asked rs)
handle_request_example = handle_request_lem no_text no_text echoing asked

registered_served_example :
    let (after, done) = register_url url echo no_handlers in
    (done ≡ true)
    × (handle_request no_text [] after asked ≡ (
        if text_eq url asked.target
        then catching no_text asked (reply_of echo asked)
        else handle_request no_text [] no_handlers asked))
unfolding find_text
registered_served_example = registered_served no_text echo no_handlers asked url url-IsAbsolute refl

relative-not_IsAbsolute : ¬ IsAbsolute (codes "test")
relative-not_IsAbsolute a = cc (a.absolute)

served_alike_example :
    let c = complete_all serve ends (completions rounds) run in
    let v = do_session serve ends false rounds in (c.sent ≡ v.sent) × (c.ending ≡ v.ending)
served_alike_example = served_alike ends sole_answer serve serve_once rounds

abbrev one_answered : List Completion
one_answered = read_done (request asked) ∷ write_done false ∷ []

still_waiting : is_waiting (complete_all serve ends one_answered run).ending ≡ true
unfolding complete_all complete complete_read complete_write on_read on_write send_all do_read run
    handle_request call_handler find_text is_legal has_dots path_cat not_found failure
still_waiting = refl

connection_goes_on_example :
    let c = complete_all serve ends one_answered run in
    (is_some_read c.reads || is_some_write c.writes) ≡ true
connection_goes_on_example = connection_goes_on serve ends serve_answers one_answered still_waiting

silent_asked : handle_request no_text no_text keeping_silent asked ≡ []
unfolding handle_request call_handler find_text text_eq is_legal has_dots path_cat catching
silent_asked = refl

abbrev coro_silent : CoroHandler
coro_silent headers body keep_alive version = record { sent = []; threw = none }

abbrev coro_handlers : CoroHandlerMap
coro_handlers = (url, coro_silent) ∷ []

coro_handle_request_example :
    let r = coro_handle_request no_text coro_handlers asked in
    (IsHandled no_text coro_handlers asked r ⊎ IsMissing no_text coro_handlers asked r)
    ⊎ (IsIllegal no_text coro_handlers asked r ⊎ IsNoMethod no_text coro_handlers asked r)
coro_handle_request_example = coro_handle_request_lem no_text coro_handlers asked

coro_session_example :
    coro_session (quiet serve ends) ends false rounds
    ≡ of_thread (do_session serve ends false rounds)
coro_session_example = coro_session-do_session serve ends false rounds
