-- ===== src/Http/Routing/Registered.antt =====
-- httpServer.hpp, from `registerURL` to the answers: the servers' `doc_root` is empty.
use mlnsdk.Base.{
  ℕ, ◌≡◌, ◌≢◌, refl, sym, subst, if◌then◌else◌, arith, ap, ◌∙◌, true, false, Bool-cases, inl, inr,
  Option, none, some, List, [], ◌∷◌,
}
use mlnsdk.Text.{find_text, text_eq, text_eq_sound, find_text-emplace_text}
use mlnsdk.Http.Message.{Request}
use mlnsdk.Http.Routing.{
  Handler, HandlerMap, register_url, is_legal, catching, call_handler, handle_request, path_cat,
}
use mlnsdk.Http.Routing.Answers.{reply_of, emplace_new}
use mlnsdk.Http.Routing.Targets.{IsAbsolute, is_legal-of_absolute, IsAbsolute-of_legal}

-- What is found under a key once a URL is registered.
abbrev found_after : List ℕ → Handler → Option Handler → List ℕ → Option Handler
found_after url handler (some w) target = some w
found_after url handler none target = if text_eq url target then some handler else none

find-register_url :
    (url : List ℕ) (handler : Handler) (handlers : HandlerMap) (target : List ℕ)
    → url ≢ []
    → find_text target (register_url url handler handlers).0
      ≡ found_after url handler (find_text target handlers) target
unfolding register_url
find-register_url [] handler handlers target h = absurd (h refl)
find-register_url (c ∷ url) handler handlers target h =
    find_text-emplace_text (c ∷ url) target handler handlers ∙ ground arith

register_url_new :
    (url : List ℕ) (handler : Handler) (handlers : HandlerMap)
    → url ≢ []
    → find_text url handlers ≡ none
    → (register_url url handler handlers).1 ≡ true
unfolding register_url
register_url_new [] handler handlers h free = absurd (h refl)
register_url_new (c ∷ url) handler handlers h free =
    ap (λ r. r.1) (emplace_new (c ∷ url) handler handlers free)

-- Any other key finds what it found.
found_other :
    (url : List ℕ) (handler : Handler) (target : List ℕ) (o : Option Handler)
    → text_eq url target ≡ false
    → found_after url handler o target ≡ o
found_other url handler target (some w) other = refl
found_other url handler target none other = rw other refl

module _ (what : List ℕ) (handler : Handler) (handlers : HandlerMap) (req : Request) where
  answered_before :
      (url : List ℕ)
      → url ≢ []
      → text_eq url req.target ≡ false
      → handle_request what [] (register_url url handler handlers).0 req
        ≡ handle_request what [] handlers req
  unfolding handle_request path_cat
  answered_before url h other =
      let same =
        find-register_url url handler handlers req.target h
        ∙ found_other url handler req.target (find_text req.target handlers) other in
      rw same refl

  nonempty_of_absolute : (url : List ℕ) → IsAbsolute url → url ≢ []
  nonempty_of_absolute url a e = cc (sym e ∙ a.absolute)

  -- A URL that is absolute, holds no two dots side by side and is not registered yet is registered, and
  -- then requests for exactly this URL are answered by its handler, all others as before.
  pub registered_served :
      (url : List ℕ)
      → IsAbsolute url
      → find_text url handlers ≡ none
      → let (after, done) = register_url url handler handlers in
        (done ≡ true)
        × (handle_request what [] after req ≡ (
            if text_eq url req.target
            then catching what req (reply_of handler req)
            else handle_request what [] handlers req))
  unfolding handle_request path_cat call_handler
  registered_served url legal free =
      let nonempty = nonempty_of_absolute url legal in
      (
        register_url_new url handler handlers nonempty free,
        elim (Bool-cases (text_eq url req.target)) [
          | inr other ↦ rw other (answered_before url nonempty other)
          | inl asked ↦
              let same : url ≡ req.target = text_eq_sound url req.target asked in
              let legal' = subst (λ u. is_legal u ≡ true) same (is_legal-of_absolute url legal) in
              let free' = subst (λ u. find_text u handlers ≡ none) same free in
              let found : find_text req.target (register_url url handler handlers).0
                  ≡ some handler =
                find-register_url url handler handlers req.target nonempty
                ∙ rw free' (rw asked refl) in
              rw legal' (rw found (rw asked refl))
        ],
      )

  -- A URL that is not empty, but not absolute or with two dots side by side, and not registered yet is
  -- registered too, and every request is answered as before.
  pub unreachable_registered :
      (url : List ℕ)
      → url ≢ []
      → find_text url handlers ≡ none
      → ¬ IsAbsolute url
      → let (after, done) = register_url url handler handlers in
        (done ≡ true) × (handle_request what [] after req ≡ handle_request what [] handlers req)
  unfolding handle_request
  unreachable_registered url nonempty free illegal = (
    register_url_new url handler handlers nonempty free,
    elim (Bool-cases (is_legal req.target)) [
      | inr refused ↦ rw refused refl
      | inl legal ↦ elim (Bool-cases (text_eq url req.target)) [
        | inr other ↦ answered_before url nonempty other
        | inl asked ↦
            let same : req.target ≡ url = sym (text_eq_sound url req.target asked) in
            absurd (illegal (subst IsAbsolute same (IsAbsolute-of_legal req.target legal)))
      ]
    ],
  )
