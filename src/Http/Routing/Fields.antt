-- ===== src/Http/Routing/Fields.antt =====
-- What a handler of httpServer.hpp finds in its header map.
use mlnsdk.Base.{
  ℕ, ◌≡◌, refl, ap₂, ◌+◌, leb, map, Option, none, some, List, [], ◌∷◌, if◌then◌else◌, arith,
}
use mlnsdk.Text.{text_eq, find_text, emplace_text, find_text-emplace_text}
use mlnsdk.Http.Routing.{Headers, to_lower, lower, add_fields, header_map}

abbrev pub or_else : Option (List ℕ) → Option (List ℕ) → Option (List ℕ)
or_else (some v) w = some v
or_else none w = w

-- The small letter for a capital one, from its code.
unfoldable pub small : ℕ → ℕ
small c = if leb c 64 then c else if leb c 90 then c + 32 else c

abbrev pub small_text : List ℕ → List ℕ
small_text s = map small s

to_lower-small : (c : ℕ) → to_lower c ≡ small c
unfolding to_lower small
to_lower-small c = ground arith

lower-small_text : (s : List ℕ) → lower s ≡ small_text s
lower-small_text [] = refl
lower-small_text (c ∷ s) = ap₂ (λ d rest. d ∷ rest) (to_lower-small c) (lower-small_text s)

-- The first field of that name, in the order of the request, both in lower case.
unfoldable pub first_value : List ℕ → List (List ℕ × List ℕ) → Option (List ℕ)
first_value k [] = none
first_value k ((name, value) ∷ fields) =
    if text_eq (small_text name) k then some (small_text value) else first_value k fields

find-add_fields :
    (k : List ℕ) (fields : List (List ℕ × List ℕ)) (headers : Headers)
    → find_text k (add_fields fields headers) ≡ or_else (find_text k headers) (first_value k fields)
unfolding add_fields first_value
find-add_fields k [] headers = ground arith
find-add_fields k ((name, value) ∷ fields) headers = ground (
  arith,
  lower-small_text name,
  lower-small_text value,
  find-add_fields k fields (emplace_text (lower name) (lower value) headers).0,
  find_text-emplace_text (lower name) k (lower value) headers,
)

pub find-header_map :
    (k : List ℕ) (fields : List (List ℕ × List ℕ))
    → find_text k (header_map fields) ≡ first_value k fields
unfolding header_map find_text
find-header_map k fields = find-add_fields k fields []
