-- ===== src/Users/Targets.antt =====
-- Which sessions the `functionTarget` methods of userManagerBase.hpp call.
use mlnsdk.Base.{ℕ, ◌+◌, ◌≡◌, refl, none, some, List, [], ◌∷◌, ◌++◌, length, lookup, arith}
use mlnsdk.Users.{Manager, function_target, function_targets}

-- The keys that no session is listed for, in order.
abbrev pub missing : List ℕ → Manager → List ℕ
missing [] m = []
missing (key ∷ keys) m = elim (lookup key m.users) [
  | some _ ↦ missing keys m
  | none ↦ key ∷ missing keys m
]

-- The calls that single keys would make, in order.
abbrev pub calls : List ℕ → Manager → List ℕ
calls [] m = []
calls (key ∷ keys) m = (function_target key m).0 ++ calls keys m

-- functionTarget on a vector of keys calls the callback as the calls on single keys would in that
-- order, returns just the keys that are not listed, and every key is either called or returned.
pub function_targets_lem :
    (keys : List ℕ) (m : Manager)
    → ((function_targets keys m).0 ≡ calls keys m)
      × ((function_targets keys m).1 ≡ missing keys m)
      × (length (function_targets keys m).0 + length (function_targets keys m).1 ≡ length keys)
unfolding function_targets function_target
function_targets_lem [] m = (refl, refl, omega arith)
function_targets_lem (key ∷ keys) m = ground (arith, function_targets_lem keys m)
