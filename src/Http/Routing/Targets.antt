-- ===== src/Http/Routing/Targets.antt =====
-- Which targets httpServer.hpp takes, and which paths they become.
use mlnsdk.Base.{
  ℕ, ◌≡◌, ◌≢◌, refl, ap, sym, subst, ◌⊎◌, true, false, ◌&&◌, Bool-cases, inl, inr, List, [], ◌∷◌,
  ◌++◌, ◌==◌, arith,
}
use mlnsdk.Http.Routing.{drop_separator, path_cat, has_dots, is_legal}

-- An absolute path in which no two dots stand side by side.
pub record IsAbsolute (target : List ℕ) : Type 0 where
  pub rest : List ℕ
  pub absolute : target ≡ b'/' ∷ rest
  pub no_dots : (xs ys : List ℕ) → target ≢ xs ++ b'.' ∷ b'.' ∷ ys

dots_found : (xs ys : List ℕ) → has_dots (xs ++ b'.' ∷ b'.' ∷ ys) ≡ true
unfolding has_dots
dots_found [] ys = refl
dots_found (x ∷ xs) ys = ground (arith, dots_found xs ys)

dots_there :
    (s : List ℕ) → has_dots s ≡ true → (xs : List ℕ) × (ys : List ℕ) × (s ≡ xs ++ b'.' ∷ b'.' ∷ ys)
unfolding has_dots
dots_there [] h = cc
dots_there (c ∷ []) h = absurd (ground arith)
dots_there (c ∷ d ∷ s) h = elim (Bool-cases ((c == b'.') && (d == b'.'))) [
  | inl two ↦ ([], s, ground arith)
  | inr other ↦
      let (xs, ys, e) = dots_there (d ∷ s) (ground arith) in (c ∷ xs, ys, ap (λ t. c ∷ t) e)
]

pub is_legal-of_absolute : (target : List ℕ) → IsAbsolute target → is_legal target ≡ true
unfolding is_legal
is_legal-of_absolute target a = elim (Bool-cases (has_dots target)) [
  | inl dots ↦ let (xs, ys, e) = dots_there target dots in absurd (a.no_dots xs ys e)
  | inr none_there ↦ rw none_there (rw (a.absolute) refl)
]

pub IsAbsolute-of_legal : (target : List ℕ) → is_legal target ≡ true → IsAbsolute target
unfolding is_legal
IsAbsolute-of_legal [] h = cc
IsAbsolute-of_legal (c ∷ s) h = record {
  rest = s;
  absolute = ground arith;
  no_dots = λ xs ys e. ground (arith, dots_found xs ys);
}

drop_separator-snoc : (base : List ℕ) → drop_separator (base ++ b'/' ∷ []) ≡ base
unfolding drop_separator
drop_separator-snoc [] = refl
drop_separator-snoc (c ∷ []) = refl
drop_separator-snoc (c ∷ d ∷ s) = ap (λ t. c ∷ t) (drop_separator-snoc (d ∷ s))

-- The path of a target under a document root: a slash at the end of the root is left out.
pub data IsPath : List ℕ → List ℕ → List ℕ → Type 0 where
  at_slash : (base target : List ℕ) → IsPath (base ++ b'/' ∷ []) target (base ++ target)
  behind :
      (root target : List ℕ)
      → ((base : List ℕ) → root ≢ base ++ b'/' ∷ [])
      → IsPath root target (root ++ target)

nil_no_slash : (base : List ℕ) → [] ≢ base ++ b'/' ∷ []
nil_no_slash [] e = cc
nil_no_slash (x ∷ base) e = cc

one_no_slash : (c : ℕ) → (c == b'/') ≡ false → (base : List ℕ) → (c ∷ []) ≢ base ++ b'/' ∷ []
one_no_slash c d [] e = ground arith
one_no_slash c d (x ∷ base) e = nil_no_slash base cc

cons_no_slash :
    (c d : ℕ) (s : List ℕ)
    → ((base : List ℕ) → (d ∷ s) ≢ base ++ b'/' ∷ [])
    → (base : List ℕ) → (c ∷ d ∷ s) ≢ base ++ b'/' ∷ []
cons_no_slash c d s apart [] e = cc
cons_no_slash c d s apart (x ∷ base) e = apart base cc

slash-cases :
    (root : List ℕ)
    → ((base : List ℕ) × (root ≡ base ++ b'/' ∷ []))
      ⊎ (((base : List ℕ) → root ≢ base ++ b'/' ∷ []) × (drop_separator root ≡ root))
unfolding drop_separator
slash-cases [] = inr (nil_no_slash, refl)
slash-cases (c ∷ []) = elim (Bool-cases (c == b'/')) [
  | inl slash ↦ inl ([], ground arith)
  | inr d ↦ inr (one_no_slash c d, rw d refl)
]
slash-cases (c ∷ d ∷ s) = elim (slash-cases (d ∷ s)) [
  | inl (base, e) ↦ inl (c ∷ base, ap (λ t. c ∷ t) e)
  | inr (apart, e) ↦ inr (cons_no_slash c d s apart, ap (λ t. c ∷ t) e)
]

path_cat-at_slash : (base target : List ℕ) → path_cat (base ++ b'/' ∷ []) target ≡ base ++ target
unfolding path_cat
path_cat-at_slash [] target = rw (drop_separator-snoc []) refl
path_cat-at_slash (c ∷ base) target = rw (drop_separator-snoc (c ∷ base)) refl

path_cat-behind :
    (root target : List ℕ) → drop_separator root ≡ root → path_cat root target ≡ root ++ target
unfolding path_cat
path_cat-behind [] target e = refl
path_cat-behind (c ∷ root) target e = ap (λ s. s ++ target) e

pub path_cat-IsPath : (root target : List ℕ) → IsPath root target (path_cat root target)
path_cat-IsPath root target = elim (slash-cases root) [
  | inl (base, e) ↦
      subst (λ r. IsPath r target (path_cat r target)) (sym e)
        (subst (IsPath (base ++ b'/' ∷ []) target) (sym (path_cat-at_slash base target))
          (at_slash base target))
  | inr (apart, e) ↦
      subst (IsPath root target) (sym (path_cat-behind root target e)) (behind root target apart)
]
