-- ===== src/Tests/Accounts.antt =====
-- Runs of userManagerBase.hpp and userSessionPair.hpp.
use mlnsdk.Base.{
  ◌<◌, ℕ, ◌+◌, ◌-◌, ◌≡◌, refl, Bool, true, List, Option, none, some, [], ◌∷◌, if◌then◌else◌, ◌==◌,
  arith,
}
use mlnsdk.Base.Outcome.{ok}
use mlnsdk.Users.{Manager, get_user, get_user_count}
use mlnsdk.Users.Pairs.{UserList, or_new, absent}
use mlnsdk.Users.Registry.{IsConsistent}
use mlnsdk.Sample.Users.{Visit, arrives, leaves, has, react_all, users_stay}
use mlnsdk.Users.Runs.{add, delete, call_all, new_manager, runs-IsConsistent}

-- A list of users by a function, and their number.
abbrev Table : Type 0
Table = (ℕ → Option ℕ) × ℕ

abbrev put : ℕ → ℕ → Table → Table × Bool
put k v (f, n) = (
  ((λ j. if k == j then some (or_new (f k) v) else f j), (if absent (f k) then n + 1 else n)),
  absent (f k),
)

abbrev table : UserList
table = record {
  State = Table;
  empty = ((λ j. none), 0);
  insert_node = put;
  delete_node = λ k (f, n). ((λ j. if k == j then none else f j), n - 1);
  find_node = λ k (f, n). f k;
  node_count = λ (f, n). n;
  find-empty = λ k. refl;
  inserted = λ k v s. refl;
  find-insert = λ k v j s. refl;
  find-delete = λ k j s. refl;
  count-insert = λ k v s. refl;
}

-- The session `s` has the identity `s + 1`.
abbrev identity : ℕ → ℕ
identity s = s + 1

identity-pos : (session : ℕ) → 0 < identity session
identity-pos session = omega arith

runs-IsConsistent_example :
    IsConsistent identity (call_all identity (add 4 ∷ add 8 ∷ delete 4 ∷ []) new_manager)
runs-IsConsistent_example = runs-IsConsistent identity identity-pos (add 4 ∷ add 8 ∷ delete 4 ∷ [])

identity_apart : (s t : ℕ) → identity s ≡ identity t → s ≡ t
identity_apart s t e = omega arith

-- Two sessions come, and both go again.
abbrev visits : List Visit
visits = arrives 4 ∷ leaves 4 ∷ arrives 8 ∷ leaves 8 ∷ []

users_stay_example :
    (m : Manager) × (pairs : Table) × (react_all identity table
        (λ u. u)
        visits
        (new_manager, ((λ j. none), 0))
      ≡ ok (m, pairs))
    × (get_user_count m ≡ 2)
    × ((s : ℕ) → has s (4 ∷ 8 ∷ []) ≡ true → get_user (identity s) m ≡ some s)
users_stay_example =
    users_stay identity identity-pos identity_apart table (λ u. u) visits ((λ j. none), 0)
      (refl, (refl, (refl, (refl, tt))))
