-- ===== src/Crash.antt =====
-- include/net/exceptionHandler.hpp: where crash files go. A char array of MAX_PATH bytes is a list of
-- that length; what stands behind the zero that ends a text is not read, and is zero here. The
-- answers of the system (the module's path, its parts, the host's name, the time) are arguments.
pub mod Roots
pub mod Directories
pub mod Reports
pub mod Traps
pub mod Effects
pub mod Left
use mlnsdk.Base.{
  ℕ, zero, suc, ◌+◌, ◌-◌, ◌/◌, ◌%◌, Bool, true, false, ◌||◌, Option, none, some, List, [], ◌∷◌,
  ◌++◌, ltb, ◌==◌, if◌then◌else◌, length, take, replicate, get_elem?, set,
}
use mlnsdk.Base.Outcome.{Outcome, ok, thrown, fault, ◌>>=◌}
use mlnsdk.Text.{codes, c_string}

-- `MAX_PATH`
abbrev pub max_path : ℕ
max_path = 260

-- What a copy or a print that truncates leaves in such an array.
unfoldable pub stored : List ℕ → List ℕ
stored text = let kept = take (max_path - 1) text in kept ++ replicate (max_path - length kept) 0

abbrev pub is_separator : ℕ → Bool
is_separator c = (c == 92) || (c == 47)

-- The loop over the end of `s_dump_path`, from the index `i` down. `i >= 0` always holds: below 0 the
-- index is 2 ^ 64 - 1, and the first thing that is done there is a read outside of the array, `fault`.
unfoldable pub cut_separators : ℕ → List ℕ → Outcome (List ℕ)
cut_separators zero path = elim (get_elem? path 0) [
  | none ↦ fault
  | some c ↦ if is_separator c then fault else ok path
]
cut_separators (suc i) path = elim (get_elem? path (suc i)) [
  | none ↦ fault
  | some c ↦
      let next = cut_separators i (set path (suc i) 0) in if is_separator c then next else ok path
]

-- From `strlen(s_dump_path) - 1`, which is 2 ^ 64 - 1 for an empty text.
unfoldable pub cut_end : List ℕ → Outcome (List ℕ)
cut_end path = elim (length (c_string path)) [ zero ↦ fault | suc n ↦ cut_separators n path ]

unfoldable pub or_dot : List ℕ → List ℕ
or_dot path = if length (c_string path) == 0 then set path 0 46 else path

-- A text that was passed and is not empty.
abbrev pub given : Option (List ℕ) → Option (List ℕ)
given none = none
given (some []) = none
given (some (c ∷ s)) = some (c ∷ s)

-- The drive, the directory and the name of the module's path.
pub record Module : Type 0 where
  pub drive : List ℕ
  pub directory : List ℕ
  pub name : List ℕ

-- The part of `init` that sets `s_dump_path`.
unfoldable pub root_path : Option (List ℕ) → Module → List ℕ
root_path root m = elim (given root) [ some path ↦ path | none ↦ m.drive ++ 92 ∷ m.directory ]

unfoldable pub dump_path : Option (List ℕ) → Module → Outcome (List ℕ)
unfolding root_path stored cut_end or_dot
dump_path root m = do path ← cut_end (stored (root_path root m)); ok (or_dot path)

-- The part that sets `s_filename`.
unfoldable pub file_name : Option (List ℕ) → Module → List ℕ
unfolding stored
file_name header m = elim (given header) [ some name ↦ stored name | none ↦ stored m.name ]

-- `SYSTEMTIME`
pub record Time : Type 0 where
  pub year : ℕ
  pub month : ℕ
  pub day : ℕ
  pub hour : ℕ
  pub minute : ℕ
  pub second : ℕ

-- `%d` of a number of at most `fuel` digits; the fields are WORDs, so 5 are enough.
unfoldable pub decimal : ℕ → ℕ → List ℕ
decimal zero n = []
decimal (suc fuel) n =
    let more = decimal fuel (n / 10) in (if ltb n 10 then [] else more) ++ (48 + n % 10) ∷ []

-- `%04d` and `%02d`
unfoldable pub padded : ℕ → ℕ → List ℕ
unfolding decimal
padded width n = let digits = decimal 5 n in replicate (width - length digits) 48 ++ digits

abbrev pub day_text : Time → List ℕ
day_text t = padded 4 t.year ++ padded 2 t.month ++ padded 2 t.day

abbrev pub time_text : Time → List ℕ
time_text t = padded 2 t.hour ++ padded 2 t.minute ++ padded 2 t.second

-- `find_first_of("\\/", from)`
unfoldable pub find_separator : ℕ → List ℕ → Option ℕ
find_separator n [] = none
find_separator zero (c ∷ s) =
    let rest = find_separator zero s in
    if is_separator c then some 0 else (elim rest [ none ↦ none | some i ↦ some (suc i) ])
find_separator (suc n) (c ∷ s) = elim (find_separator n s) [ none ↦ none | some i ↦ some (suc i) ]

-- The directories that the loop creates after `pos`; `none` if the fuel runs out.
unfoldable pub create_directories : ℕ → ℕ → List ℕ → Option (List (List ℕ))
create_directories zero pos path = none
create_directories (suc fuel) pos path = elim (find_separator (pos + 1) path) [
  | none ↦ some (path ∷ [])
  | some next ↦ elim (create_directories fuel next path) [
    | none ↦ none
    | some rest ↦ some (take next path ∷ rest)
  ]
]

-- `target_dir` and `out` of `generate_filename`, as texts, for the texts of `s_dump_path` and
-- `s_filename`.
unfoldable pub target_directory : List ℕ → Time → List ℕ
unfolding padded
target_directory root t = take (max_path - 1) (root ++ 92 ∷ day_text t)

unfoldable pub generated : List ℕ → List ℕ → List ℕ → List ℕ → List ℕ → Time → List ℕ
unfolding target_directory padded
generated header ext root name host t = take (max_path - 1) (
    target_directory root t
    ++ 92
      ∷ (header
          ++ 95 ∷ (name ++ 95 ∷ (host ++ 95 ∷ (day_text t ++ 95 ∷ (time_text t ++ 46 ∷ ext))))))
