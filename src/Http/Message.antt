-- ===== src/Http/Message.antt =====
-- The requests and responses of include/net/http/httpServer.hpp, and `SendFunc`, which makes the
-- responses. A header that is set is a field and its value; `prepare_payload`, which is Beast's, sets
-- the length of the body in the response that is sent.
use mlnsdk.Base.{ℕ, Bool, false, List, [], ◌∷◌, map}

pub data Method : Type 0 where
  get post other_method : Method

pub record Request : Type 0 where
  pub method : Method
  pub target : List ℕ
  pub version : ℕ
  pub keep_alive : Bool
  pub fields : List (List ℕ × List ℕ)
  pub body : List ℕ

pub data Field : Type 0 where
  server content_type : Field
  named : List ℕ → Field

-- `BOOST_BEAST_VERSION_STRING`, a media type of the code, or a handler's text.
pub data Value : Type 0 where
  beast_version text_html application_json : Value
  text : List ℕ → Value

pub record Response : Type 0 where
  pub status : ℕ
  pub version : ℕ
  pub headers : List (Field × Value)
  pub keep_alive : Bool
  pub body : List ℕ

-- The members of `SendFunc`.
pub record SendFunc : Type 0 where
  pub version : ℕ
  pub keep_alive : Bool

unfoldable pub new_send_func : SendFunc
new_send_func = record { version = 11; keep_alive = false }

-- The fields that every response of the code's own has.
abbrev pub own_headers : Value → List (Field × Value)
own_headers media = (server, beast_version) ∷ (content_type, media) ∷ []

-- `operator()(status)` and `sendError`.
unfoldable pub status_response : SendFunc → ℕ → Response
status_response send status = record {
  status = status;
  version = send.version;
  headers = own_headers text_html;
  keep_alive = send.keep_alive;
  body = [];
}

-- `operator()(std::string&&)`
unfoldable pub body_response : SendFunc → List ℕ → Response
body_response send body = record {
  status = 200;
  version = send.version;
  headers = own_headers application_json;
  keep_alive = send.keep_alive;
  body = body;
}

abbrev pub named_field : List ℕ × List ℕ → Field × Value
named_field (name, value) = (named name, text value)

-- `operator()(HeaderMap&&, std::string&&)`
unfoldable pub headers_response : SendFunc → List (List ℕ × List ℕ) → List ℕ → Response
headers_response send headers body = record {
  status = 200;
  version = send.version;
  headers = map named_field headers;
  keep_alive = send.keep_alive;
  body = body;
}

-- The lambdas of `handle_request`: a response of its own with a status, a media type and a body.
unfoldable pub failure : ℕ → Value → List ℕ → Request → Response
failure status media body req = record {
  status = status;
  version = req.version;
  headers = own_headers media;
  keep_alive = req.keep_alive;
  body = body;
}
