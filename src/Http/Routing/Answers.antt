-- ===== src/Http/Routing/Answers.antt =====
-- How `handle_request` of httpServer.hpp answers, on every branch.
use mlnsdk.Base.{
  ℕ, ◌≡◌, ◌≢◌, refl, sym, ap, ◌++◌, ◌∙◌, ◌⊎◌, inl, inr, true, false, Bool-cases, none, some,
  Option-cases, List, [], ◌∷◌,
}
use mlnsdk.Text.{codes, find_text, emplace_text, text_eq_refl, find_text-emplace_text}
use mlnsdk.Http.Message.{
  Request, Response, Value, server, content_type, beast_version, text_html, failure,
}
use mlnsdk.Http.Routing.Fields.{first_value, find-header_map}
use mlnsdk.Http.Routing.{
  Headers, server_error, Handler, HandlerMap, Reply, register_url, is_legal, header_map, or_braces,
  bad_request, not_found, catching, call_handler, handle_request, path_cat,
}
use mlnsdk.Http.Routing.Targets.{
  IsAbsolute, is_legal-of_absolute, IsAbsolute-of_legal, IsPath, path_cat-IsPath,
}

-- What the handler of a request gives.
abbrev pub reply_of : Handler → Request → Reply
reply_of handler req =
    handler (header_map req.fields) (or_braces req.body)
      (record { version = req.version; keep_alive = req.keep_alive })

-- A response of the code's own: the version and keep-alive of the request, and two headers.
abbrev pub own_response : ℕ → Value → List ℕ → Request → Response
own_response status media body req = record {
  status = status;
  version = req.version;
  headers = (server, beast_version) ∷ (content_type, media) ∷ [];
  keep_alive = req.keep_alive;
  body = body;
}

-- The body that a handler is given.
abbrev pub given_body : List ℕ → List ℕ
given_body [] = b'{' ∷ b'}' ∷ []
given_body (c ∷ body) = c ∷ body

pub or_braces_lem : (body : List ℕ) → or_braces body ≡ given_body body
or_braces_lem [] = refl
or_braces_lem (c ∷ body) = refl

abbrev pub was_not_found : List ℕ → List ℕ
was_not_found target = (codes "The resource '" ++ target) ++ codes "' was not found."

module _ (what root : List ℕ) (handlers : HandlerMap) (req : Request) where
  -- The handler under the document root and the target, and the headers and the reply of its call.
  pub record Called : Type 0 where
    pub absolute : IsAbsolute req.target
    pub handler : Handler
    pub path : List ℕ
    pub is_path : IsPath root req.target path
    pub known : find_text path handlers ≡ some handler
    pub headers : Headers
    pub given : (k : List ℕ) → find_text k headers ≡ first_value k req.fields
    pub reply : Reply
    pub replied :
        handler headers
          (given_body req.body)
          (record { version = req.version; keep_alive = req.keep_alive })
        ≡ reply

  pub record IsReturned (rs : List Response) : Type 0 where
    pub called : Called
    pub returned : called.reply.threw ≡ none
    pub answer : rs ≡ called.reply.sent

  pub record IsFailed (rs : List Response) : Type 0 where
    pub called : Called
    pub lost : List ℕ
    pub failed : called.reply.threw ≡ some lost
    pub answer :
        let text = (codes "An error occurred: '" ++ what) ++ codes "'" in
        rs ≡ called.reply.sent ++ own_response 500 text_html text req ∷ []

  pub record IsUnknown (rs : List Response) : Type 0 where
    pub absolute : IsAbsolute req.target
    pub path : List ℕ
    pub is_path : IsPath root req.target path
    pub unknown : find_text path handlers ≡ none
    pub answer : rs ≡ own_response 404 text_html (was_not_found req.target) req ∷ []

  pub record IsRefused (rs : List Response) : Type 0 where
    pub illegal : ¬ IsAbsolute req.target
    pub answer : rs ≡ own_response 400 text_html (codes "Illegal request-target") req ∷ []

  called_of :
      (handler : Handler)
      → is_legal req.target ≡ true
      → find_text (path_cat root req.target) handlers ≡ some handler
      → Called
  called_of handler legal known = record {
    absolute = IsAbsolute-of_legal req.target legal;
    handler = handler;
    path = path_cat root req.target;
    is_path = path_cat-IsPath root req.target;
    known = known;
    headers = header_map req.fields;
    given = λ k. find-header_map k req.fields;
    reply = reply_of handler req;
    replied =
        ap
          (λ body.
            handler (header_map req.fields) body
              (record { version = req.version; keep_alive = req.keep_alive }))
          (sym (or_braces_lem req.body));
  }

  handle_request_legal :
      (handler : Handler)
      → is_legal req.target ≡ true
      → find_text (path_cat root req.target) handlers ≡ some handler
      → handle_request what root handlers req ≡ catching what req (reply_of handler req)
  unfolding handle_request call_handler
  handle_request_legal handler legal known = rw legal (rw known refl)

  -- handle_request of httpServer.hpp does one of four things. For a target that is absolute and
  -- without two dots side by side and has a handler under its path (the document root, less a slash
  -- at its end, and the target), it calls this with headers in which each name stands for its first
  -- field's value, both in lower case, and with the body, or {} for an empty one: if the handler
  -- returns, just what it sent is sent, and if it throws, a response 500 is sent behind that. For
  -- such a target without a handler it sends just a response 404 that names the target, and for any
  -- other target just a response 400. The responses of its own are of type text/html, with the
  -- version and the keep-alive of the request.
  pub handle_request_lem :
      let rs = handle_request what root handlers req in
      (IsReturned rs ⊎ IsFailed rs) ⊎ (IsUnknown rs ⊎ IsRefused rs)
  unfolding handle_request call_handler catching bad_request not_found server_error failure
      called_of
  handle_request_lem = elim (Bool-cases (is_legal req.target)) [
    | inr illegal ↦ inr (
        inr (record {
          illegal = λ a. cc (is_legal-of_absolute req.target a);
          answer = rw illegal refl;
        }))
    | inl legal ↦ elim (Option-cases (find_text (path_cat root req.target) handlers)) [
      | inl unknown ↦ inr (
          inl (record {
            absolute = IsAbsolute-of_legal req.target legal;
            path = path_cat root req.target;
            is_path = path_cat-IsPath root req.target;
            unknown = unknown;
            answer = rw legal (rw unknown refl);
          }))
      | inr (handler, known) ↦
          let same = handle_request_legal handler legal known in
          elim (Option-cases ((reply_of handler req).threw)) [
            | inl returned ↦ inl (
                inl (record {
                  called = called_of handler legal known;
                  returned = returned;
                  answer = same ∙ rw returned refl;
                }))
            | inr (lost, failed) ↦ inl (
                inr (record {
                  called = called_of handler legal known;
                  lost = lost;
                  failed = failed;
                  answer = same ∙ rw failed refl;
                }))
          ]
    ]
  ]

pub emplace_new :
    (k : List ℕ) (v : Handler) (m : HandlerMap)
    → find_text k m ≡ none
    → emplace_text k v m ≡ ((emplace_text k v m).0, true)
unfolding emplace_text
emplace_new k v m free = rw (free, emplace_text) refl

emplace_known :
    (k : List ℕ) (w v : Handler) (m : HandlerMap)
    → find_text k m ≡ some w
    → emplace_text k v m ≡ (m, false)
unfolding emplace_text
emplace_known k w v m known = rw (known, emplace_text) refl

-- The first registration of a URL wins.
pub register-register :
    (url : List ℕ) (first second : Handler) (handlers : HandlerMap)
    → url ≢ []
    → find_text url handlers ≡ none
    → let (once, new) = register_url url first handlers in
      let (twice, again) = register_url url second once in
      (new ≡ true) × (again ≡ false) × (twice ≡ once) × (find_text url twice ≡ some first)
unfolding register_url
register-register [] first second handlers h free = absurd (h refl)
register-register (c ∷ url) first second handlers h free =
    let m = (emplace_text (c ∷ url) first handlers).0 in
    let new : emplace_text (c ∷ url) first handlers ≡ (m, true) =
      emplace_new (c ∷ url) first handlers free in
    let found : find_text (c ∷ url) m ≡ some first =
      find_text-emplace_text (c ∷ url) (c ∷ url) first handlers
      ∙ rw free (rw (text_eq_refl (c ∷ url)) refl) in
    let old = emplace_known (c ∷ url) first second m found in
    (ap (λ r. r.1) new, ap (λ r. r.1) old, ap (λ r. r.0) old, rw old found)
