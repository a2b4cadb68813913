-- ===== src/Crash/Directories.antt =====
-- The directories that `generate_filename` creates.
use mlnsdk.Base.{
  ℕ, zero, suc, ◌+◌, ◌≤◌, ◌<◌, ◌≡◌, refl, sym, ap, ◌∙◌, true, false, Option, none, some, List, [],
  ◌∷◌, ◌++◌, append_assoc, append-nil, length, length-append, take, take-append, if◌then◌else◌,
  Bool-cases, inl, inr, ap₂, arith,
}
use mlnsdk.Crash.{is_separator, find_separator, create_directories}

-- All that stands before a separator behind the first byte, and the path itself.
abbrev pub ancestors : List ℕ → List ℕ → List (List ℕ)
ancestors before [] = before ∷ []
ancestors before (c ∷ s) =
    let rest = ancestors (before ++ c ∷ []) s in if is_separator c then before ∷ rest else rest

find_separator_end : (s : List ℕ) → find_separator (length s) s ≡ none
unfolding find_separator
find_separator_end [] = refl
find_separator_end (c ∷ s) = rw (find_separator_end s) refl

find_separator_here :
    (s t : List ℕ) (c : ℕ)
    → is_separator c ≡ true
    → find_separator (length s) (s ++ c ∷ t) ≡ some (length s)
unfolding find_separator
find_separator_here [] t c h = rw h refl
find_separator_here (d ∷ s) t c h = rw (find_separator_here s t c h) refl

find_separator_later :
    (s t : List ℕ) (c : ℕ)
    → is_separator c ≡ false
    → find_separator (length s) (s ++ c ∷ t) ≡ find_separator (suc (length s)) (s ++ c ∷ t)
unfolding find_separator
find_separator_later [] t c h = rw h refl
find_separator_later (d ∷ s) t c h = rw (find_separator_later s t c h) refl

-- One round of the loop, by what it finds.
abbrev found : ℕ → List ℕ → Option ℕ → Option (List (List ℕ))
found fuel path none = some (path ∷ [])
found fuel path (some next) = elim (create_directories fuel next path) [
  | none ↦ none
  | some rest ↦ some (take next path ∷ rest)
]

abbrev round : ℕ → ℕ → List ℕ → Option (List (List ℕ))
round fuel n path = found fuel path (find_separator n path)

create_directories_lem :
    (fuel pos : ℕ) (path : List ℕ)
    → create_directories (suc fuel) pos path ≡ round fuel (pos + 1) path
unfolding create_directories
create_directories_lem fuel pos path =
    elim (find_separator (pos + 1) path)
      as (λ x.
        (elim x [
          | none ↦ some (path ∷ [])
          | some next ↦ elim (create_directories fuel next path) [
            | none ↦ none
            | some rest ↦ some (take next path ∷ rest)
          ]
        ])
        ≡ found fuel path x) [ none ↦ refl | some next ↦ refl ]

-- A round that starts behind one more byte.
behind :
    (s before : List ℕ) (c fuel n : ℕ)
    → n ≡ length before + 1
    → round fuel n (before ++ c ∷ s)
      ≡ round fuel (length (before ++ c ∷ [])) ((before ++ c ∷ []) ++ s)
behind s before c fuel n e =
    ap₂ (round fuel) (omega (arith, length-append before (c ∷ [])))
      (sym (append_assoc before (c ∷ []) s))

-- What a round gives that finds a separator after `before`.
step_lem :
    (before path : List ℕ) (fuel : ℕ) (rest : List (List ℕ))
    → take (length before) path ≡ before
    → create_directories fuel (length before) path ≡ some rest
    → found fuel path (some (length before)) ≡ some (before ∷ rest)
step_lem before path fuel rest cut e =
    ap
      (λ (x : Option (List (List ℕ))). elim x [
        | none ↦ none
        | some rest ↦ some (take (length before) path ∷ rest)
      ])
      e
    ∙ ap (λ (x : List ℕ). some (x ∷ rest)) cut

round_lem :
    (s before : List ℕ) (fuel : ℕ)
    → length s ≤ fuel
    → round fuel (length before) (before ++ s) ≡ some (ancestors before s)
round_lem [] before fuel h =
    ap (round fuel (length before)) (append-nil before)
    ∙ ap (found fuel before) (find_separator_end before)
round_lem (c ∷ s) before zero h = absurd (omega arith)
round_lem (c ∷ s) before (suc fuel) h = elim (Bool-cases (is_separator c)) [
  | inl e ↦ rw e (
      ap (found (suc fuel) (before ++ c ∷ s)) (find_separator_here before s c e)
      ∙ step_lem before (before ++ c ∷ s) (suc fuel) (ancestors (before ++ c ∷ []) s)
          (take-append before (c ∷ s) (length before) refl)
          (create_directories_lem fuel (length before) (before ++ c ∷ s)
            ∙ behind s before c fuel (length before + 1) refl
            ∙ round_lem s (before ++ c ∷ []) fuel (omega arith)))
  | inr e ↦ rw e (
      ap (found (suc fuel) (before ++ c ∷ s)) (find_separator_later before s c e)
      ∙ behind s before c (suc fuel) (suc (length before)) (omega arith)
      ∙ round_lem s (before ++ c ∷ []) (suc fuel) (omega arith))
]

-- With fuel above the number of bytes behind the first one, the loop of generate_filename ends,
-- and creates a directory for all that stands before each separator behind the first byte, from
-- the front on, and for the whole path last.
pub created_lem :
    (c fuel : ℕ) (s : List ℕ)
    → length s < fuel
    → create_directories fuel 0 (c ∷ s) ≡ some (ancestors (c ∷ []) s)
created_lem c zero s h = absurd (omega arith)
created_lem c (suc fuel) s h =
    create_directories_lem fuel 0 (c ∷ s) ∙ round_lem s (c ∷ []) fuel (omega arith)
