-- ===== src/Tests/Parsers.antt =====
-- Runs of jsonParserBoostjson.hpp and jsonParserCpprest.hpp.
use mlnsdk.Base.{
  ℕ, ◌≡◌, refl, Bool, true, false, Option, none, some, List, [], ◌∷◌, if◌then◌else◌, length, ◌==◌,
}
use mlnsdk.Base.Outcome.{Outcome, ok, thrown, ◌>>=◌}
use mlnsdk.Text.{codes, find_text}
use mlnsdk.Packet.Json.Parsers.{BoostJson, Cpprest, Values, or_throw, member}

-- JSON values: null, strings, and objects of these.
data Json : Type 0 where
  leaf : Option (List ℕ) → Json
  object_json : List (List ℕ × Option (List ℕ)) → Json

abbrev values : List (List ℕ × Option (List ℕ)) → List (List ℕ × Json)
values [] = []
values ((key, l) ∷ ms) = (key, leaf l) ∷ values ms

abbrev members_of : Json → Option (List (List ℕ × Json))
members_of (leaf l) = none
members_of (object_json ms) = some (values ms)

abbrev string_in : Json → Option (List ℕ)
string_in (leaf l) = l
string_in (object_json ms) = none

abbrev is_null_leaf : Json → Bool
is_null_leaf (leaf none) = true
is_null_leaf _ = false

null_leaf : (x : Json) → is_null_leaf x ≡ true → members_of x ≡ none
null_leaf (leaf l) e = refl
null_leaf (object_json ms) e = cc

-- An object with the URL "/a" and no body, for a text of two bytes.
abbrev only_url : List (List ℕ × Option (List ℕ))
only_url = (codes "url", some (47 ∷ 97 ∷ [])) ∷ []

abbrev read_text : List ℕ → Option Json
read_text t = if length t == 2 then some (object_json only_url) else none

abbrev json_values : Values Json
json_values = record {
  of_text = read_text;
  null_value = leaf none;
  members = members_of;
  string_of = string_in;
  null_is_no_string = refl;
  is_null = is_null_leaf;
  null_is_no_object = null_leaf;
}

abbrev fields_of : Json → Option (List (List ℕ × Option (List ℕ)))
fields_of (leaf l) = none
fields_of (object_json ms) = some ms

abbrev boost : BoostJson Json (List (List ℕ × Option (List ℕ)))
boost = record {
  parse = λ t. or_throw (read_text t);
  null_value = leaf none;
  at = λ x key. or_throw (members_of x) >>= λ ms. or_throw (find_text key ms);
  value_to_string = λ x. or_throw (string_in x);
  as_object = λ x. or_throw (fields_of x);
  subscript = λ ms key. (member json_values key (values ms), ms);
}

-- A null stands behind the other members.
abbrev null_behind :
    List ℕ → List (List ℕ × Option (List ℕ)) → Option Json → List (List ℕ × Option (List ℕ))
null_behind key ms none = (key, none) ∷ ms
null_behind key ms (some x) = ms

abbrev with_null : List ℕ → List (List ℕ × Option (List ℕ)) → List (List ℕ × Option (List ℕ))
with_null key ms = null_behind key ms (find_text key (values ms))

abbrev subscripted : Json → List ℕ → Outcome (Json × Json)
subscripted (leaf none) key = ok (leaf none, object_json ((key, none) ∷ []))
subscripted (leaf (some l)) key = thrown
subscripted (object_json ms) key =
    ok (member json_values key (values ms), object_json (with_null key ms))

abbrev rest_sdk : Cpprest Json
rest_sdk = record {
  parse = λ t. or_throw (read_text t);
  null_value = leaf none;
  subscript = subscripted;
  as_string = λ x. or_throw (string_in x);
}
