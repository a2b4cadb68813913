-- ===== src/Base/Outcome.antt =====
-- How a call ends: with a value, with a C++ exception, or with an access outside its memory.
use mathlib.Core.Path.{◌≡◌, refl}
use mathlib.Core.Option.{Option, none, some}

pub data Outcome {ℓ} (A : Type ℓ) : Type ℓ where
  ok : A → Outcome A
  -- `throw std::runtime_error` and the like
  thrown : Outcome A
  -- undefined behaviour: a read or a write outside the object
  fault : Outcome A

infixl 5 ◌>>=◌ ◌>>◌
abbrev pub ◌>>=◌ {ℓ κ} : {A : Type ℓ} {B : Type κ} → Outcome A → (A → Outcome B) → Outcome B
ok a >>= f = f a
thrown >>= f = thrown
fault >>= f = fault

abbrev pub ◌>>◌ {ℓ κ} : {A : Type ℓ} {B : Type κ} → Outcome A → Outcome B → Outcome B
m >> k = m >>= λ _. k

-- An access that `none` marks as outside.
abbrev pub or_fault {ℓ} : {A : Type ℓ} → Option A → Outcome A
or_fault none = fault
or_fault (some a) = ok a

-- A call that returned after another: the other returned too.
pub returned_before {ℓ κ} :
    {V : Type ℓ} {W : Type κ} (call : Outcome V) (next : V → Outcome W) {w : W}
    → (call >>= next) ≡ ok w
    → (v : V) × (call ≡ ok v) × (next v ≡ ok w)
returned_before (ok v) next e = (v, refl, e)
returned_before thrown next e = cc
returned_before fault next e = cc
