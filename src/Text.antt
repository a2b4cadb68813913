-- ===== src/Text.antt =====
-- Texts as lists of bytes: equality, C strings, literals, and maps from texts.
use Prim.Native.Char.{code}
use Prim.Native.String.{String}
use mlnsdk.Base.{
  ℕ, ◌≡◌, ◌≢◌, refl, Bool, true, false, ◌&&◌, Option, none, some, List, [], ◌∷◌, ◌++◌, ◌==◌,
  if◌then◌else◌, arith,
}

unfoldable pub text_eq : List ℕ → List ℕ → Bool
text_eq [] [] = true
text_eq [] (d ∷ t) = false
text_eq (c ∷ s) [] = false
text_eq (c ∷ s) (d ∷ t) = (c == d) && text_eq s t

-- The bytes before the first zero.
unfoldable pub c_string : List ℕ → List ℕ
c_string [] = []
c_string (c ∷ s) = if c == 0 then [] else c ∷ c_string s

-- The bytes of a literal in ASCII.
abbrev pub codes : String → List ℕ
codes String.[] = []
codes (String.◌∷◌ c s) = code c ∷ codes s

module _ {ℓ} {V : Type ℓ} where
  unfoldable pub find_text : List ℕ → List (List ℕ × V) → Option V
  find_text k [] = none
  find_text k ((j, v) ∷ m) = if text_eq j k then some v else find_text k m

  unfoldable pub insert_text : List ℕ → V → List (List ℕ × V) → List (List ℕ × V)
  insert_text k v [] = (k, v) ∷ []
  insert_text k v ((j, w) ∷ m) = if text_eq j k then (j, v) ∷ m else (j, w) ∷ insert_text k v m

  -- `std::map::emplace`: a key that is there keeps its value; whether the pair was inserted.
  unfoldable pub emplace_text : List ℕ → V → List (List ℕ × V) → List (List ℕ × V) × Bool
  emplace_text k v m = elim (find_text k m) [
    | none ↦ (m ++ (k, v) ∷ [], true)
    | some w ↦ (m, false)
  ]

pub text_eq_refl : (s : List ℕ) → text_eq s s ≡ true
unfolding text_eq
text_eq_refl [] = refl
text_eq_refl (c ∷ s) = ground (arith, text_eq_refl s)

pub text_eq_sound : (s t : List ℕ) → text_eq s t ≡ true → s ≡ t
unfolding text_eq
text_eq_sound [] [] h = refl
text_eq_sound [] (d ∷ t) h = cc
text_eq_sound (c ∷ s) [] h = cc
text_eq_sound (c ∷ s) (d ∷ t) h = ground (arith, text_eq_sound s t)

-- A text without a zero byte is what stands before the zero that ends it.
abbrev pub HasNoZero : List ℕ → Type 0
HasNoZero [] = Unit
HasNoZero (c ∷ s) = (c ≢ 0) × HasNoZero s

pub c_string-append : (s rest : List ℕ) → HasNoZero s → c_string (s ++ 0 ∷ rest) ≡ s
unfolding c_string
c_string-append [] rest h = refl
c_string-append (c ∷ s) rest h = ground (arith, c_string-append s rest h.1)

module _ {ℓ} {V : Type ℓ} where
  pub find_text-insert_text :
      (k j : List ℕ) (v : V) (m : List (List ℕ × V))
      → find_text j (insert_text k v m) ≡ (if text_eq k j then some v else find_text j m)
  unfolding find_text insert_text
  find_text-insert_text k j v [] = refl
  find_text-insert_text k j v ((i, w) ∷ m) = ground (
    arith,
    text_eq_sound i k,
    text_eq_sound k j,
    text_eq_sound i j,
    text_eq_refl i,
    text_eq_refl k,
    text_eq_refl j,
    find_text-insert_text k j v m,
  )

  find_text-snoc :
      (k j : List ℕ) (v : V) (m : List (List ℕ × V))
      → find_text j (m ++ (k, v) ∷ [])
        ≡ (elim (find_text j m) [ some w ↦ some w | none ↦ if text_eq k j then some v else none ])
  unfolding find_text
  find_text-snoc k j v [] = refl
  find_text-snoc k j v ((i, w) ∷ m) = ground (arith, find_text-snoc k j v m)

  -- A pair that is emplaced is found under its key unless there was one before.
  pub find_text-emplace_text :
      (k j : List ℕ) (v : V) (m : List (List ℕ × V))
      → find_text j (emplace_text k v m).0
        ≡ (elim (find_text j m) [ some w ↦ some w | none ↦ if text_eq k j then some v else none ])
  unfolding emplace_text
  find_text-emplace_text k j v m = ground (arith, find_text-snoc k j v m, text_eq_sound k j)
