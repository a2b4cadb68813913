-- ===== src/Crash/Roots.antt =====
-- The path that `init` leaves in `s_dump_path`.
use mlnsdk.Base.{
  ℕ, zero, suc, ◌+◌, ◌-◌, ◌≡◌, ◌≢◌, refl, sym, ap, ◌∙◌, Option, none, some, List, [], ◌∷◌, ◌++◌,
  length, take, replicate, get_elem?, set, if◌then◌else◌, Bool-cases, inl, inr, length-take, arith,
  ne→==,
}
use mlnsdk.Base.Outcome.{Outcome, ok, thrown, fault, ◌>>=◌, or_fault}
use mlnsdk.Text.{c_string, HasNoZero}
use mlnsdk.Crash.{
  max_path, stored, is_separator, cut_separators, cut_end, or_dot, Module, root_path, dump_path,
}

-- The bytes of the first list in reverse, before the second.
abbrev reverse_on : List ℕ → List ℕ → List ℕ
reverse_on [] y = y
reverse_on (c ∷ r) y = reverse_on r (c ∷ y)

-- Without the separators at the front.
abbrev dropped : List ℕ → List ℕ
dropped [] = []
dropped (c ∷ r) = let rest = dropped r in if is_separator c then rest else c ∷ r

abbrev rest_of : List ℕ → Option (List ℕ)
rest_of [] = none
rest_of (c ∷ r) = some (reverse_on (c ∷ r) [])

-- Without the separators at the end, if there is any other byte.
abbrev pub trimmed : List ℕ → Option (List ℕ)
trimmed s = rest_of (dropped (reverse_on s []))

reverse_on-reverse_on : (s w y : List ℕ) → reverse_on (reverse_on s w) y ≡ reverse_on w (s ++ y)
reverse_on-reverse_on [] w y = refl
reverse_on-reverse_on (c ∷ s) w y = reverse_on-reverse_on s (c ∷ w) y

length-reverse_on : (r y : List ℕ) → length (reverse_on r y) ≡ length r + length y
length-reverse_on [] y = omega arith
length-reverse_on (c ∷ r) y = omega (arith, length-reverse_on r (c ∷ y))

reverse_on-HasNoZero : (r y : List ℕ) → HasNoZero r → HasNoZero y → HasNoZero (reverse_on r y)
reverse_on-HasNoZero [] y h k = k
reverse_on-HasNoZero (c ∷ r) y (h, hs) k = reverse_on-HasNoZero r (c ∷ y) hs (h, k)

dropped-HasNoZero : (r : List ℕ) → HasNoZero r → HasNoZero (dropped r)
dropped-HasNoZero [] h = tt
dropped-HasNoZero (c ∷ r) (h, hs) = elim (Bool-cases (is_separator c)) [
  | inl e ↦ rw e (dropped-HasNoZero r hs)
  | inr e ↦ rw e (h, hs)
]

get_elem?-reverse_on :
    (r y : List ℕ) (k : ℕ) → get_elem? (reverse_on r y) (length r + k) ≡ get_elem? y k
get_elem?-reverse_on [] y k = ap (get_elem? y) (omega arith)
get_elem?-reverse_on (c ∷ r) y k =
    ap (get_elem? (reverse_on r (c ∷ y))) (omega arith) ∙ get_elem?-reverse_on r (c ∷ y) (suc k)

set-reverse_on :
    (r y : List ℕ) (k v : ℕ) → set (reverse_on r y) (length r + k) v ≡ reverse_on r (set y k v)
set-reverse_on [] y k v = ap (λ i. set y i v) (omega arith)
set-reverse_on (c ∷ r) y k v =
    ap (λ i. set (reverse_on r (c ∷ y)) i v) (omega arith) ∙ set-reverse_on r (c ∷ y) (suc k) v

c_string-cons : (c : ℕ) (y : List ℕ) → c ≢ 0 → c_string (c ∷ y) ≡ c ∷ c_string y
unfolding c_string
c_string-cons c y h = rw (ne→== c 0 h) refl

c_string-reverse_on :
    (r y : List ℕ) → HasNoZero r → c_string (reverse_on r y) ≡ reverse_on r (c_string y)
c_string-reverse_on [] y h = refl
c_string-reverse_on (c ∷ r) y (h, hs) =
    c_string-reverse_on r (c ∷ y) hs ∙ ap (reverse_on r) (c_string-cons c y h)

-- What is read from the array once `init` has looked at its end.
abbrev read_root : Outcome (List ℕ) → Outcome (List ℕ)
read_root r = r >>= λ path. ok (c_string (or_dot path))

abbrev kept : List ℕ → Outcome (List ℕ)
kept r = or_fault (rest_of r)

c_string-end : (z : List ℕ) → c_string (0 ∷ z) ≡ []
unfolding c_string
c_string-end z = refl

or_dot_lem : (path : List ℕ) (n : ℕ) → length (c_string path) ≡ suc n → or_dot path ≡ path
unfolding or_dot
or_dot_lem path n h =
    ap (λ b. if b then set path 0 46 else path)
      (ne→== (length (c_string path)) 0 (λ e. absurd (omega (arith, h, e))))

text_lem :
    (r : List ℕ) (c : ℕ) (z : List ℕ)
    → HasNoZero (c ∷ r)
    → c_string (reverse_on r (c ∷ 0 ∷ z)) ≡ reverse_on r (c ∷ [])
text_lem r c z (h, hs) =
    c_string-reverse_on r (c ∷ 0 ∷ z) hs
    ∙ ap (reverse_on r) (c_string-cons c (0 ∷ z) h ∙ ap (λ y. c ∷ y) (c_string-end z))

read_lem :
    (r : List ℕ) (c : ℕ) (z : List ℕ)
    → HasNoZero (c ∷ r)
    → read_root (ok (reverse_on r (c ∷ 0 ∷ z))) ≡ kept (c ∷ r)
read_lem r c z (h, hs) =
    let text = text_lem r c z (h, hs) in
    ap (λ path. ok (c_string path))
      (or_dot_lem (reverse_on r (c ∷ 0 ∷ z)) (length r)
        (omega (arith, ap length text, length-reverse_on r (c ∷ []))))
    ∙ ap ok text

-- One turn of the loop.
cut_step :
    (i c : ℕ) (path : List ℕ)
    → get_elem? path (suc i) ≡ some c
    → cut_separators (suc i) path
      ≡ (if is_separator c then cut_separators i (set path (suc i) 0) else ok path)
unfolding cut_separators
cut_step i c path h = rw (h, cut_separators) refl

cut_lem :
    (r : List ℕ) (c : ℕ) (z : List ℕ)
    → HasNoZero (c ∷ r)
    → read_root (cut_separators (length r) (reverse_on r (c ∷ 0 ∷ z))) ≡ kept (dropped (c ∷ r))
unfolding cut_separators
cut_lem [] c z h = elim (Bool-cases (is_separator c)) [
  | inl e ↦ rw e refl
  | inr e ↦ rw e (read_lem [] c z h)
]
cut_lem (d ∷ r) c z (h, hs) =
    let path = reverse_on r (d ∷ c ∷ 0 ∷ z) in
    let step =
      cut_step (length r) c path
        (ap (get_elem? path) (omega arith) ∙ get_elem?-reverse_on (d ∷ r) (c ∷ 0 ∷ z) 0) in
    let cleared : set path (suc (length r)) 0 ≡ reverse_on r (d ∷ 0 ∷ 0 ∷ z) =
      ap (λ i. set path i 0) (omega arith) ∙ set-reverse_on (d ∷ r) (c ∷ 0 ∷ z) 0 0 in
    ap read_root step ∙ elim (Bool-cases (is_separator c)) [
      | inl e ↦
          rw e (ap (λ p. read_root (cut_separators (length r) p)) cleared ∙ cut_lem r d (0 ∷ z) hs)
      | inr e ↦ rw e (read_lem (d ∷ r) c z (h, hs))
    ]

stored_lem :
    (text : List ℕ) → (n : ℕ) × (stored text ≡ take (max_path - 1) text ++ 0 ∷ replicate n 0)
unfolding stored
stored_lem text =
    let left = take (max_path - 1) text in
    let one : max_path - length left ≡ suc (max_path - 1 - length left) =
      omega (arith, length-take (max_path - 1) text) in
    (max_path - 1 - length left, ap (λ n. left ++ replicate n 0) one)

take-HasNoZero : (n : ℕ) (s : List ℕ) → HasNoZero s → HasNoZero (take n s)
take-HasNoZero zero s h = tt
take-HasNoZero (suc n) [] h = tt
take-HasNoZero (suc n) (c ∷ s) (h, hs) = (h, take-HasNoZero n s hs)

from_length : List ℕ → ℕ → Outcome (List ℕ)
from_length path zero = fault
from_length path (suc n) = cut_separators n path

cut_from : (path : List ℕ) (n : ℕ) → length (c_string path) ≡ n → cut_end path ≡ from_length path n
unfolding cut_end from_length
cut_from path n e = rw (e, cut_end) refl

-- From the array that holds a text to the text that is left.
cut_reversed :
    (r z : List ℕ) → HasNoZero r → read_root (cut_end (reverse_on r (0 ∷ z))) ≡ kept (dropped r)
unfolding from_length
cut_reversed [] z k = ap read_root (cut_from (0 ∷ z) 0 (ap length (c_string-end z)))
cut_reversed (c ∷ r) z k =
    ap read_root (
      cut_from (reverse_on r (c ∷ 0 ∷ z)) (suc (length r))
        (omega (arith, ap length (text_lem r c z k), length-reverse_on r (c ∷ []))))
    ∙ cut_lem r c z k

cut_end_lem :
    (text z : List ℕ)
    → HasNoZero text
    → read_root (cut_end (text ++ 0 ∷ z)) ≡ or_fault (trimmed text)
cut_end_lem text z h =
    ap (λ p. read_root (cut_end p)) (sym (reverse_on-reverse_on text [] (0 ∷ z)))
    ∙ cut_reversed (reverse_on text []) z (reverse_on-HasNoZero text [] h tt)

read_after :
    (r : Outcome (List ℕ))
    → ((r >>= λ path. ok (or_dot path)) >>= λ path. ok (c_string path)) ≡ read_root r
read_after (ok path) = refl
read_after thrown = refl
read_after fault = refl

-- For a root path and a module path without zero bytes, init leaves in s_dump_path the path that
-- it chooses, cut to 259 bytes and then without the separators at its end; where there is nothing
-- but separators it goes on to read in front of the array.
pub dump_path_lem :
    (root : Option (List ℕ)) (m : Module)
    → HasNoZero (root_path root m)
    → (dump_path root m >>= λ path. ok (c_string path))
      ≡ or_fault (trimmed (take (max_path - 1) (root_path root m)))
unfolding dump_path
dump_path_lem root m h =
    let text = take (max_path - 1) (root_path root m) in
    let (n, e) = stored_lem (root_path root m) in
    read_after (cut_end (stored (root_path root m)))
    ∙ ap (λ p. read_root (cut_end p)) e
    ∙ cut_end_lem text (replicate n 0) (take-HasNoZero (max_path - 1) (root_path root m) h)
