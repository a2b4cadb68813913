-- ===== src/Users.antt =====
-- include/net/user/userManagerBase.hpp: the users of a server by session. A session is an object with
-- a fixed identity, `identity`; its user pointer, set by `setUser`, stands in `user_of`. Users are
-- numbered in the order of their allocation. The locks make each method one step.
pub mod Pairs
pub mod Registry
pub mod Targets
pub mod Runs
use mlnsdk.Base.{
  ℕ, ◌+◌, Bool, true, false, Option, none, some, List, [], ◌∷◌, ltb, ◌==◌, if◌then◌else◌, length,
  lookup,
}
use mlnsdk.Base.Outcome.{Outcome, ok, fault}
use Pairs.{UserList, delete_pair}

-- `std::map::insert`: the keys stay in order, and a key that is there keeps its value.
unfoldable pub insert_ordered : ℕ → ℕ → List (ℕ × ℕ) → List (ℕ × ℕ)
insert_ordered k v [] = (k, v) ∷ []
insert_ordered k v ((j, w) ∷ m) =
    let rest = (j, w) ∷ insert_ordered k v m in
    if k == j then (j, w) ∷ m else if ltb k j then (k, v) ∷ (j, w) ∷ m else rest

unfoldable pub erase_key : ℕ → List (ℕ × ℕ) → List (ℕ × ℕ)
erase_key k [] = []
erase_key k ((j, w) ∷ m) = if j == k then erase_key k m else (j, w) ∷ erase_key k m

pub record Manager : Type 0 where
  pub users : List (ℕ × ℕ)
  pub user_of : ℕ → Option ℕ
  pub next_user : ℕ

abbrev pub update : (ℕ → Option ℕ) → ℕ → Option ℕ → ℕ → Option ℕ
update f a v b = if a == b then v else f b

abbrev pub is_none {ℓ} : {A : Type ℓ} → Option A → Bool
is_none none = true
is_none (some a) = false

module _ (identity : ℕ → ℕ) where
  -- `addUserBase`: that the session has a user already is only logged.
  unfoldable pub add_user_base : ℕ → Manager → Manager × Option ℕ
  add_user_base session m =
      let user = m.next_user in
      let m' = record m {
        user_of = update m.user_of session (some user);
        next_user = m.next_user + 1;
      } in
      if is_none (lookup (identity session) m.users)
      then (record m' { users = insert_ordered (identity session) session m.users }, some user)
      else (m', none)

  -- `deleteUserBase`
  unfoldable pub delete_user_base : ℕ → Manager → Manager
  delete_user_base session m =
      if is_none (m.user_of session)
      then m
      else if is_none (lookup (identity session) m.users)
      then record m { user_of = update m.user_of session none }
      else record m {
        users = erase_key (identity session) m.users;
        user_of = update m.user_of session none;
      }

-- `getUser`: the session that is listed for an identity.
unfoldable pub get_user : ℕ → Manager → Option ℕ
get_user key m = lookup key m.users

unfoldable pub get_user_count : Manager → ℕ
get_user_count m = length m.users

-- `functionTarget(callback, sessionKey)`: the sessions called, and whether it returns 0 and not -1.
unfoldable pub function_target : ℕ → Manager → List ℕ × Bool
function_target key m = elim (lookup key m.users) [
  | some session ↦ (session ∷ [], true)
  | none ↦ ([], false)
]

-- `functionTarget(callback, sessionKeys)`: the sessions called, and the keys that failed.
unfoldable pub function_targets : List ℕ → Manager → List ℕ × List ℕ
function_targets [] m = ([], [])
function_targets (key ∷ keys) m =
    let (sessions, failed) = function_targets keys m in
    elim (lookup key m.users) [
      | some session ↦ (session ∷ sessions, failed)
      | none ↦ (sessions, key ∷ failed)
    ]

abbrev sessions_of : List (ℕ × ℕ) → List ℕ
sessions_of [] = []
sessions_of ((_, session) ∷ m) = session ∷ sessions_of m

-- `functionForeach`: every session, in the order of the keys.
unfoldable pub function_foreach : Manager → List ℕ
function_foreach m = sessions_of m.users

-- `closedUser`: the session's user is not tested, and stays listed. `user_id` is `getUserId`.
unfoldable pub closed_user :
    (l : UserList) → (ℕ → ℕ) → ℕ → Manager → l.State → Outcome (Manager × l.State)
closed_user l user_id session m pairs = elim (m.user_of session) [
  | none ↦ fault
  | some user ↦ ok (m, delete_pair l (user_id user) pairs)
]
