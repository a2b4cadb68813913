-- ===== src/Http/Routing.antt =====
-- httpServer.hpp: the table of URLs and `handle_request`. The server's `doc_root` is an argument; a
-- handler gives the responses that it passes to `send`, in order, and the text of an exception that
-- it leaves by.
pub mod Targets
pub mod Fields
pub mod Answers
pub mod Registered
use Prim.Native.String.{String}
use mlnsdk.Base.{
  ℕ, ◌+◌, ◌≡◌, Bool, true, false, not, ◌&&◌, ◌||◌, Option, none, some, List, [], ◌∷◌, ◌++◌, map,
  leb, ◌==◌, if◌then◌else◌,
}
use mlnsdk.Text.{codes, find_text, emplace_text}
use mlnsdk.Http.Message.{
  Request, Response, SendFunc, Value, text_html, application_json, failure, status_response,
}

-- `HeaderMap`
abbrev pub Headers : Type 0
Headers = List (List ℕ × List ℕ)

pub record Reply : Type 0 where
  pub sent : List Response
  pub threw : Option (List ℕ)

-- `HandlerType`
abbrev pub Handler : Type 0
Handler = Headers → List ℕ → SendFunc → Reply

-- `HandlerMap`
abbrev pub HandlerMap : Type 0
HandlerMap = List (List ℕ × Handler)

-- `registerURL`
unfoldable pub register_url : List ℕ → Handler → HandlerMap → HandlerMap × Bool
register_url [] handler handlers = (handlers, false)
register_url (c ∷ url) handler handlers = emplace_text (c ∷ url) handler handlers

-- `GetRegisterFunc`
unfoldable pub get_register_func : List ℕ → Handler → HandlerMap → HandlerMap
unfolding register_url
get_register_func url handler handlers = (register_url url handler handlers).0

-- `result.back() == path_separator`, and the text without it.
unfoldable pub drop_separator : List ℕ → List ℕ
drop_separator [] = []
drop_separator (c ∷ []) = if c == b'/' then [] else c ∷ []
drop_separator (c ∷ d ∷ s) = c ∷ drop_separator (d ∷ s)

-- `path_cat`, where the separator is a slash.
unfoldable pub path_cat : List ℕ → List ℕ → List ℕ
path_cat [] path = path
path_cat (c ∷ base) path = drop_separator (c ∷ base) ++ path

-- `find("..") != npos`
abbrev pub starts_with_dot : List ℕ → Bool
starts_with_dot [] = false
starts_with_dot (c ∷ s) = c == b'.'

unfoldable pub has_dots : List ℕ → Bool
has_dots [] = false
has_dots (c ∷ s) = ((c == b'.') && starts_with_dot s) || has_dots s

abbrev pub starts_with_slash : List ℕ → Bool
starts_with_slash [] = false
starts_with_slash (c ∷ s) = c == b'/'

-- The test of the request target.
unfoldable pub is_legal : List ℕ → Bool
is_legal target = starts_with_slash target && not (has_dots target)

-- `tolower` in the C locale.
unfoldable pub to_lower : ℕ → ℕ
to_lower c = if leb b'A' c && leb c b'Z' then c + 32 else c

abbrev pub lower : List ℕ → List ℕ
lower s = map to_lower s

-- The loop over `req.base()`.
unfoldable pub add_fields : List (List ℕ × List ℕ) → Headers → Headers
add_fields [] headers = headers
add_fields ((name, value) ∷ fields) headers =
    add_fields fields (emplace_text (lower name) (lower value) headers).0

unfoldable pub header_map : List (List ℕ × List ℕ) → Headers
header_map fields = add_fields fields []

-- `reqBodyString`
abbrev pub or_braces : List ℕ → List ℕ
or_braces [] = codes "{}"
or_braces (c ∷ body) = c ∷ body

unfoldable pub bad_request : Request → Response
bad_request req = failure 400 text_html (codes "Illegal request-target") req

unfoldable pub not_found : Request → Response
not_found req =
    failure 404 text_html ((codes "The resource '" ++ req.target) ++ codes "' was not found.") req

unfoldable pub server_error : List ℕ → Request → Response
server_error what req =
    failure 500 text_html ((codes "An error occurred: '" ++ what) ++ codes "'") req

-- `catch (std::exception e)`: `e` is a copy of the base class, and `what` what that copy says.
unfoldable pub catching : List ℕ → Request → Reply → List Response
catching what req r = elim (r.threw) [
  | none ↦ r.sent
  | some lost ↦ r.sent ++ server_error what req ∷ []
]

unfoldable pub call_handler : List ℕ → Request → Option Handler → List Response
call_handler what req none = not_found req ∷ []
call_handler what req (some handler) = catching what req (
    handler (header_map req.fields) (or_braces req.body)
      (record { version = req.version; keep_alive = req.keep_alive }))

-- `handle_request`: the responses that are sent, in order.
unfoldable pub handle_request : List ℕ → List ℕ → HandlerMap → Request → List Response
handle_request what doc_root handlers req =
    if is_legal req.target
    then call_handler what req (find_text (path_cat doc_root req.target) handlers)
    else bad_request req ∷ []
