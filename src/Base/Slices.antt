-- ===== src/Base/Slices.antt =====
-- Ranges of a list: what `memcpy` reads and writes at an offset of a byte vector.
use Prim.Native.Nat.{ℕ, zero, suc, ◌+◌, ◌≤◌}
use Prim.Native.Nat.add
use native.Mathlib.Decide.{dec_le}
use mathlib.Core.Path.{◌≡◌, refl, ap, ap₂, sym, ◌∙◌}
use mathlib.Core.List.{List, [], ◌∷◌, ◌++◌}
use mathlib.Core.Option.{Option, none, some}
use native.Mathlib.Omega.{arith}
use mlnsdk.Base.Tests.{leb, if◌then◌else◌}
use mlnsdk.Base.Lists.{
  length, take, drop, length-append, length-take, length-drop, take-append, drop-append,
  take_prefix, drop_prefix, take-append-drop, take_all,
}

module _ {ℓ} {A : Type ℓ} where
  pub take_nil : (n : ℕ) → take {A = A} n [] ≡ []
  take_nil zero = refl
  take_nil (suc n) = refl

  pub drop_nil : (n : ℕ) → drop {A = A} n [] ≡ []
  drop_nil zero = refl
  drop_nil (suc n) = refl

  -- The `n` elements from index `i` on.
  abbrev pub slice : ℕ → ℕ → List A → List A
  slice i n xs = take n (drop i xs)

  -- `ys` over `xs` from index `i` on.
  abbrev pub written : ℕ → List A → List A → List A
  written i ys xs = take i xs ++ (ys ++ drop (i + length ys) xs)

  -- `memcpy` of `ys` to index `i`; `none` if that leaves the vector.
  abbrev pub overwrite : ℕ → List A → List A → Option (List A)
  overwrite i ys xs = if leb (i + length ys) (length xs) then some (written i ys xs) else none

module _ {ℓ} {A : Type ℓ} where
  pub length-slice : (i n : ℕ) (xs : List A) → i + n ≤ length xs → length (slice i n xs) ≡ n
  length-slice i n xs h = omega (arith, length-take n (drop i xs), length-drop i xs)

  take_add : (m n : ℕ) (xs : List A) → take (m + n) xs ≡ take m xs ++ take n (drop m xs)
  take_add zero n xs = ap (λ k. take k xs) (omega arith)
  take_add (suc m) n [] = rw add.suc (sym (take_nil n))
  take_add (suc m) n (x ∷ xs) = rw add.suc (ap (◌∷◌ x) (take_add m n xs))

  drop_add : (i m : ℕ) (xs : List A) → drop (i + m) xs ≡ drop m (drop i xs)
  drop_add zero m xs = ap (λ k. drop k xs) (omega arith)
  drop_add (suc i) m [] = rw add.suc (sym (drop_nil m))
  drop_add (suc i) m (x ∷ xs) = rw add.suc (drop_add i m xs)

  pub slice_split :
      (i m n : ℕ) (xs : List A) → slice i (m + n) xs ≡ slice i m xs ++ slice (i + m) n xs
  slice_split i m n xs =
      take_add m n (drop i xs) ∙ ap (λ ys. slice i m xs ++ take n ys) (sym (drop_add i m xs))

  pub slice_prefix :
      (i n : ℕ) (xs ys : List A) → i + n ≤ length xs → slice i n (xs ++ ys) ≡ slice i n xs
  slice_prefix i n xs ys h =
      ap (take n) (drop_prefix xs ys i (omega arith))
      ∙ take_prefix (drop i xs) ys n (omega (arith, length-drop i xs))

  -- A range that starts behind the first list.
  pub slice-append :
      (xs ys zs : List A) (i : ℕ) → length xs ≡ i → slice i (length ys) (xs ++ (ys ++ zs)) ≡ ys
  slice-append xs ys zs i h =
      ap (take (length ys)) (drop-append xs (ys ++ zs) i h) ∙ take-append ys zs (length ys) refl

  pub slice-take : (i n k : ℕ) (xs : List A) → i + n ≤ k → slice i n (take k xs) ≡ slice i n xs
  slice-take i n k xs h = elim (dec_le k (length xs)) [
    | yes p ↦
        sym (slice_prefix i n (take k xs) (drop k xs) (omega (arith, length-take k xs)))
        ∙ ap (slice i n) (take-append-drop k xs)
    | no p ↦ ap (slice i n) (take_all xs k (omega arith))
  ]

  pub length-written :
      (w : ℕ) (ys xs : List A) → w + length ys ≤ length xs → length (written w ys xs) ≡ length xs
  length-written w ys xs h = omega (
    arith,
    length-append (take w xs) (ys ++ drop (w + length ys) xs),
    length-append ys (drop (w + length ys) xs),
    length-take w xs,
    length-drop (w + length ys) xs,
  )

  -- An overwritten range holds what was written, and what lies before it stays.
  pub slice-written :
      (i n w : ℕ) (ys xs : List A)
      → i + n ≡ w
      → w + length ys ≤ length xs
      → slice i (n + length ys) (written w ys xs) ≡ slice i n xs ++ ys
  slice-written i n w ys xs e h =
      slice_split i n (length ys) (written w ys xs)
      ∙ ap₂ ◌++◌
          (slice_prefix i n (take w xs) _ (omega (arith, length-take w xs))
            ∙ slice-take i n w xs (omega arith))
          (rw e (slice-append (take w xs) ys _ w (omega (arith, length-take w xs))))

  pub take_beyond : (xs ys : List A) (m : ℕ) → take (length xs + m) (xs ++ ys) ≡ xs ++ take m ys
  take_beyond xs ys m =
      take_add (length xs) m (xs ++ ys)
      ∙ ap₂ (λ us vs. us ++ take m vs) (take-append xs ys (length xs) refl)
          (drop-append xs ys (length xs) refl)

  pub drop-take :
      (i m : ℕ) (xs : List A) → i ≤ length xs → drop i (take (i + m) xs) ≡ take m (drop i xs)
  drop-take i m xs h =
      ap (drop i) (take_add i m xs) ∙ drop-append (take i xs) _ i (omega (arith, length-take i xs))

  pub slice_skip :
      (k i n : ℕ) (xs ys : List A) → length xs ≡ k → slice (k + i) n (xs ++ ys) ≡ slice i n ys
  slice_skip k i n xs ys h =
      ap (take n) (drop_add k i (xs ++ ys) ∙ ap (drop i) (drop-append xs ys k h))
