-- ===== src/Http/Coroutine.antt =====
-- The server of include/net/http/httpServerCoro.hpp: registration and `handle_request`. Its `path_cat`
-- is that of httpServer.hpp, line by line, and so are the names taken from there.
pub mod Answers
pub mod Serving
pub mod Mime
pub mod Starting
use Prim.Native.String.{String}
use mlnsdk.Base.{ℕ, ◌≡◌, Bool, true, false, Option, none, some, List, [], ◌∷◌, ◌++◌, if◌then◌else◌}
use mlnsdk.Text.{codes, find_text, emplace_text}
use mlnsdk.Http.Message.{
  Method, get, post, other_method, Request, Response, text_html, application_json, failure,
}
use mlnsdk.Http.Routing.{Headers, Reply, path_cat, is_legal, header_map, or_braces}

-- `HttpCoroHandlerType`: the headers, the body, `keep_alive` and the version of the request.
abbrev pub CoroHandler : Type 0
CoroHandler = Headers → List ℕ → Bool → ℕ → Reply

-- `HttpCoroHandlerMap`
abbrev pub CoroHandlerMap : Type 0
CoroHandlerMap = List (List ℕ × CoroHandler)

-- `registHandler`
unfoldable pub regist_handler : List ℕ → CoroHandler → CoroHandlerMap → CoroHandlerMap × Bool
regist_handler [] handler handlers = (handlers, false)
regist_handler (c ∷ url) handler handlers = emplace_text (c ∷ url) handler handlers

-- The test of the method.
abbrev pub is_get_or_post : Method → Bool
is_get_or_post get = true
is_get_or_post post = true
is_get_or_post other_method = false

unfoldable pub coro_bad_request : List ℕ → Request → Response
coro_bad_request why req = failure 400 application_json why req

unfoldable pub coro_not_found : Request → Response
coro_not_found req =
    failure 404 text_html ((codes "The resource '" ++ req.target) ++ codes "' was not found.") req

-- The headers that a handler is given.
unfoldable pub with_path : List ℕ → Headers → Headers
with_path path headers = (emplace_text (codes "__path__") path headers).0

abbrev pub answered : List Response → Reply
answered rs = record { sent = rs; threw = none }

unfoldable pub coro_call : List ℕ → Request → Option CoroHandler → Reply
coro_call path req none = answered (coro_not_found req ∷ [])
coro_call path req (some handler) =
    handler (with_path path (header_map req.fields)) (or_braces req.body) req.keep_alive req.version

-- `handle_request`: what is sent, and the exception that leaves it.
unfoldable pub coro_handle_request : List ℕ → CoroHandlerMap → Request → Reply
coro_handle_request doc_root handlers req =
    let path = path_cat doc_root req.target in
    if is_get_or_post req.method
    then if is_legal req.target
      then coro_call path req (find_text path handlers)
      else answered (coro_bad_request (codes "Illegal request-target") req ∷ [])
    else answered (coro_bad_request (codes "not using HTTP-method") req ∷ [])
