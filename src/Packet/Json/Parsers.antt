-- ===== src/Packet/Json/Parsers.antt =====
-- include/net/packetJson/jsonParserBoostjson.hpp and jsonParserCpprest.hpp: the two functions that
-- `setJsonBodyParser` may be given. The libraries are parameters: what each call of theirs gives, or
-- `thrown`. A text is the list of its bytes.
pub mod Alike
use mlnsdk.Base.{ℕ, ◌≡◌, refl, Bool, true, false, Option, none, some, List, [], ◌∷◌}
use mlnsdk.Base.Outcome.{Outcome, ok, thrown, fault, ◌>>=◌}
use mlnsdk.Text.{codes, find_text, text_eq}

-- `JsonParsingCallback` gives whether there is a value, the value and the URL.
abbrev pub ParsedJson : Type 0 → Type 0
ParsedJson J = Bool × J × List ℕ

-- What the functions call of Boost.JSON: `O` is `boost::json::object`. `subscript` is its
-- `operator[]`: the member, and the object with it.
pub record BoostJson (J O : Type 0) : Type 0 where
  pub parse : List ℕ → Outcome J
  pub null_value : J
  pub at : J → List ℕ → Outcome J
  pub value_to_string : J → Outcome (List ℕ)
  pub as_object : J → Outcome O
  pub subscript : O → List ℕ → J × O

-- And of the C++ REST SDK: `subscript` is `operator[]` of `web::json::value`.
pub record Cpprest (J : Type 0) : Type 0 where
  pub parse : List ℕ → Outcome J
  pub null_value : J
  pub subscript : J → List ℕ → Outcome (J × J)
  pub as_string : J → Outcome (List ℕ)

-- The `catch (std::exception e)`.
unfoldable pub parse_caught : {J : Type 0} → J → Outcome (ParsedJson J) → Outcome (ParsedJson J)
parse_caught null_value (ok a) = ok a
parse_caught null_value thrown = ok (false, null_value, [])
parse_caught null_value fault = fault

unfoldable pub boostjson_parse :
    {J O : Type 0} → BoostJson J O → List ℕ → Bool → Outcome (ParsedJson J)
boostjson_parse lib body false =
    parse_caught lib.null_value (lib.parse body >>= λ value. ok (true, value, []))
boostjson_parse lib body true = parse_caught lib.null_value (do
  value ← lib.parse body
  member ← lib.at value (codes "url")
  url ← lib.value_to_string member
  object ← lib.as_object value
  ok (true, (lib.subscript object (codes "body")).0, url))

unfoldable pub cpprest_parse : {J : Type 0} → Cpprest J → List ℕ → Bool → Outcome (ParsedJson J)
cpprest_parse lib body false =
    parse_caught lib.null_value (lib.parse body >>= λ value. ok (true, value, []))
cpprest_parse lib body true = parse_caught lib.null_value (do
  value ← lib.parse body
  (content, value') ← lib.subscript value (codes "body")
  (member, _) ← lib.subscript value' (codes "url")
  url ← lib.as_string member
  ok (true, content, url))

-- JSON values as both libraries have them: what a text stands for, the members of an object, the text
-- of a string, and null.
pub record Values (J : Type 0) : Type 0 where
  pub of_text : List ℕ → Option J
  pub null_value : J
  pub members : J → Option (List (List ℕ × J))
  pub string_of : J → Option (List ℕ)
  pub null_is_no_string : string_of null_value ≡ none
  pub is_null : J → Bool
  pub null_is_no_object : (x : J) → is_null x ≡ true → members x ≡ none

abbrev pub or_throw : {A : Type 0} → Option A → Outcome A
or_throw none = thrown
or_throw (some a) = ok a

abbrev pub or_else : {A : Type 0} → A → Option A → A
or_else a none = a
or_else a (some b) = b

module _ {J : Type 0} (v : Values J) where
  -- A member that is not there is null.
  abbrev pub member : List ℕ → List (List ℕ × J) → J
  member key ms = or_else v.null_value (find_text key ms)

  -- The documented behaviour of Boost.JSON: `at` throws for what is no object and for a key that is
  -- not there, `as_object` for what is no object; `operator[]` finds a member or makes a null.
  pub record IsBoostJson {O : Type 0} (b : BoostJson J O) : Type 0 where
    pub parses : (t : List ℕ) → b.parse t ≡ or_throw (v.of_text t)
    pub same_null : b.null_value ≡ v.null_value
    pub ats :
        (x : J) (key : List ℕ)
        → b.at x key ≡ (or_throw (v.members x) >>= λ ms. or_throw (find_text key ms))
    pub strings : (x : J) → b.value_to_string x ≡ or_throw (v.string_of x)
    pub subscripts :
        (x : J) (key : List ℕ)
        → (b.as_object x >>= λ o. ok (b.subscript o key).0)
          ≡ (or_throw (v.members x) >>= λ ms. ok (member key ms))

  -- The documented behaviour of the C++ REST SDK: `operator[]` makes a null an object with a null for
  -- the key, throws for what else is no object, and in an object finds a member or makes a null, which
  -- leaves the members of other keys; `as_string` throws for what is no string.
  pub record IsCpprest (c : Cpprest J) : Type 0 where
    pub parses : (t : List ℕ) → c.parse t ≡ or_throw (v.of_text t)
    pub same_null : c.null_value ≡ v.null_value
    pub strings : (x : J) → c.as_string x ≡ or_throw (v.string_of x)
    pub subscripts_null :
        (x : J) (key : List ℕ)
        → v.is_null x ≡ true
        → (x' : J) × (c.subscript x key ≡ ok (v.null_value, x'))
          × (v.members x' ≡ some ((key, v.null_value) ∷ []))
    pub subscripts_none :
        (x : J) (key : List ℕ)
        → v.is_null x ≡ false
        → v.members x ≡ none
        → c.subscript x key ≡ thrown
    pub subscripts_some :
        (x : J) (key : List ℕ) (ms : List (List ℕ × J))
        → v.members x ≡ some ms
        → (x' : J) × (ms' : List (List ℕ × J)) × (c.subscript x key ≡ ok (member key ms, x'))
          × (v.members x' ≡ some ms')
          × ((other : List ℕ)
              → text_eq key other ≡ false
              → find_text other ms' ≡ find_text other ms)

  -- What a text is taken for with a URL: an object whose member "url" is a string, with its member
  -- "body" or null.
  abbrev pub refused : ParsedJson J
  refused = (false, v.null_value, [])

  abbrev pub with_url : List (List ℕ × J) → Option (List ℕ) → ParsedJson J
  with_url ms none = refused
  with_url ms (some url) = (true, member (codes "body") ms, url)

  abbrev pub url_of : List (List ℕ × J) → Option (List ℕ)
  url_of ms = v.string_of (member (codes "url") ms)

  abbrev pub of_members : Option (List (List ℕ × J)) → ParsedJson J
  of_members none = refused
  of_members (some ms) = with_url ms (url_of ms)

  abbrev pub taken : Option J → ParsedJson J
  taken none = refused
  taken (some x) = of_members (v.members x)
