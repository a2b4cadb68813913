-- ===== src/Http/Coroutine/Answers.antt =====
-- How `handle_request` of httpServerCoro.hpp answers, and the headers its handlers see.
use mlnsdk.Base.{
  ℕ, ◌≡◌, ◌≢◌, ap, refl, ◌∙◌, ◌⊎◌, inl, inr, true, false, Bool-cases, Option, none, some,
  Option-cases, List, [], ◌∷◌, if◌then◌else◌,
}
use mlnsdk.Text.{codes, text_eq, find_text, find_text-emplace_text}
use mlnsdk.Http.Message.{
  Method, get, post, other_method, Request, text_html, application_json, failure,
}
use mlnsdk.Http.Routing.{Headers, Reply, path_cat, is_legal, header_map}
use mlnsdk.Http.Routing.Fields.{first_value, find-header_map}
use mlnsdk.Http.Routing.Answers.{own_response, given_body, was_not_found, or_braces_lem}
use mlnsdk.Http.Routing.Targets.{
  IsAbsolute, is_legal-of_absolute, IsAbsolute-of_legal, IsPath, path_cat-IsPath,
}
use mlnsdk.Http.Coroutine.{
  CoroHandler, CoroHandlerMap, is_get_or_post, coro_bad_request, coro_not_found, with_path,
  answered, coro_call, coro_handle_request,
}

-- What a handler finds under a name: its first field of that name, and the path where there is none.
abbrev pub seen : List ℕ → List ℕ → List (List ℕ × List ℕ) → Option (List ℕ)
seen path k fields = elim (first_value k fields) [
  | some v ↦ some v
  | none ↦ if text_eq (codes "__path__") k then some path else none
]

module _ (root : List ℕ) (handlers : CoroHandlerMap) (req : Request) where
  abbrev full_path : List ℕ
  full_path = path_cat root req.target

  -- The handler of the path is given headers that hold what `seen` says.
  pub record IsHandled (r : Reply) : Type 0 where
    pub method : (req.method ≡ get) ⊎ (req.method ≡ post)
    pub absolute : IsAbsolute req.target
    pub handler : CoroHandler
    pub path : List ℕ
    pub is_path : IsPath root req.target path
    pub known : find_text path handlers ≡ some handler
    pub headers : Headers
    pub given : (k : List ℕ) → find_text k headers ≡ seen path k req.fields
    pub answer : r ≡ handler headers (given_body req.body) req.keep_alive req.version

  pub record IsMissing (r : Reply) : Type 0 where
    pub method : (req.method ≡ get) ⊎ (req.method ≡ post)
    pub absolute : IsAbsolute req.target
    pub path : List ℕ
    pub is_path : IsPath root req.target path
    pub unknown : find_text path handlers ≡ none
    pub answer : r ≡ answered (own_response 404 text_html (was_not_found req.target) req ∷ [])

  pub record IsIllegal (r : Reply) : Type 0 where
    pub method : (req.method ≡ get) ⊎ (req.method ≡ post)
    pub illegal : ¬ IsAbsolute req.target
    pub answer :
        r ≡ answered (own_response 400 application_json (codes "Illegal request-target") req ∷ [])

  pub record IsNoMethod (r : Reply) : Type 0 where
    pub method : (req.method ≢ get) × (req.method ≢ post)
    pub answer :
        r ≡ answered (own_response 400 application_json (codes "not using HTTP-method") req ∷ [])

  given_headers :
      (k : List ℕ)
      → find_text k (with_path full_path (header_map req.fields)) ≡ seen full_path k req.fields
  unfolding with_path
  given_headers k =
      find_text-emplace_text (codes "__path__") k full_path (header_map req.fields)
      ∙ rw (find-header_map k req.fields) refl

  right_method : (m : Method) → is_get_or_post m ≡ true → (m ≡ get) ⊎ (m ≡ post)
  right_method get e = inl refl
  right_method post e = inr refl
  right_method other_method e = cc

  wrong_method : (m : Method) → is_get_or_post m ≡ false → (m ≢ get) × (m ≢ post)
  wrong_method m e =
      (λ same. cc (ap is_get_or_post same, e), λ same. cc (ap is_get_or_post same, e))

  -- handle_request of httpServerCoro.hpp gives a GET or POST request for a target that is absolute
  -- and without two dots side by side to the handler of its path (the document root, less a slash at
  -- its end, and the target), where there is one, with headers in which each name stands for its
  -- first field's value, both in lower case, and __path__ for the path unless a field has that name,
  -- and with the body, or {} for an empty one; the outcome is the handler's. Without a handler it
  -- sends just a response 404 of type text/html that names the target, and for another target or
  -- method just a response 400 of type application/json that says which. The responses of its own
  -- have the version and the keep-alive of the request.
  pub coro_handle_request_lem :
      let r = coro_handle_request root handlers req in
      (IsHandled r ⊎ IsMissing r) ⊎ (IsIllegal r ⊎ IsNoMethod r)
  unfolding coro_handle_request coro_call coro_bad_request coro_not_found failure
  coro_handle_request_lem = elim (Bool-cases (is_get_or_post req.method)) [
    | inr wrong ↦
        inr (inr (record { method = wrong_method req.method wrong; answer = rw wrong refl }))
    | inl right ↦ elim (Bool-cases (is_legal req.target)) [
      | inr illegal ↦ inr (
          inl (record {
            method = right_method req.method right;
            illegal = λ a. cc (is_legal-of_absolute req.target a);
            answer = rw right (rw illegal refl);
          }))
      | inl legal ↦ elim (Option-cases (find_text full_path handlers)) [
        | inl unknown ↦ inl (
            inr (record {
              method = right_method req.method right;
              absolute = IsAbsolute-of_legal req.target legal;
              path = full_path;
              is_path = path_cat-IsPath root req.target;
              unknown = unknown;
              answer = rw right (rw legal (rw unknown refl));
            }))
        | inr (handler, known) ↦ inl (
            inl (record {
              method = right_method req.method right;
              absolute = IsAbsolute-of_legal req.target legal;
              handler = handler;
              path = full_path;
              is_path = path_cat-IsPath root req.target;
              known = known;
              headers = with_path full_path (header_map req.fields);
              given = given_headers;
              answer = rw right (rw legal (rw known (rw (or_braces_lem req.body) refl)));
            }))
      ]
    ]
  ]
