-- ===== src/Users/Pairs.antt =====
-- include/net/user/userSessionPair.hpp: which session a user is connected by. The list behind it,
-- lockfreeLinkedlist.h, is a copy of another project's and enters as an interface: its operations
-- and what its comments promise of them.
use mlnsdk.Base.{ℕ, ◌+◌, ◌≡◌, Bool, true, false, Option, none, some, ◌==◌, if◌then◌else◌, arith}

abbrev pub or_new : Option ℕ → ℕ → ℕ
or_new none v = v
or_new (some w) v = w

abbrev pub absent : Option ℕ → Bool
absent none = true
absent (some _) = false

-- `LockFreeLinkedList<UserSessionKey>`, compared by user: `Find` gives the session of a user.
pub record UserList : Type 1 where
  pub State : Type 0
  pub empty : State
  pub insert_node : ℕ → ℕ → State → State × Bool
  pub delete_node : ℕ → State → State
  pub find_node : ℕ → State → Option ℕ
  pub node_count : State → ℕ
  pub find-empty : (k : ℕ) → find_node k empty ≡ none
  -- "if data is already exist in list then return false"
  pub inserted : (k v : ℕ) (s : State) → (insert_node k v s).1 ≡ absent (find_node k s)
  pub find-insert :
      (k v j : ℕ) (s : State)
      → find_node j (insert_node k v s).0
        ≡ (if k == j then some (or_new (find_node k s) v) else find_node j s)
  pub find-delete :
      (k j : ℕ) (s : State)
      → find_node j (delete_node k s) ≡ (if k == j then none else find_node j s)
  pub count-insert :
      (k v : ℕ) (s : State)
      → node_count (insert_node k v s).0
        ≡ (if absent (find_node k s) then node_count s + 1 else node_count s)

module _ (l : UserList) where
  open l use {
    State, insert_node, delete_node, find_node, node_count, inserted, find-insert, find-delete,
    count-insert,
  }

  -- `insert`: whether the pair is new, and the size.
  unfoldable pub insert_pair : ℕ → ℕ → State → State × Bool × ℕ
  insert_pair user session s =
      let (s', new) = insert_node user session s in (s', new, node_count s')

  -- `deleteUserSessionKeyPair`
  unfoldable pub delete_pair : ℕ → State → State
  delete_pair user s = delete_node user s

  -- `findSessionKey`: whether there is one, and the value of `sessionKey` after the call.
  unfoldable pub find_session_key : ℕ → ℕ → State → Bool × ℕ
  find_session_key user session_key s = elim (find_node user s) [
    | some found ↦ (true, found)
    | none ↦ (false, session_key)
  ]

  -- Over a list of users that keeps its documented promises, if a user has no session, a first
  -- insert succeeds, a second one for the same user is refused, and findSessionKey then finds the
  -- first session.
  pub first_login_wins :
      (user first second before : ℕ) (s : State)
      → find_node user s ≡ none
      → let (s1, new, _) = insert_pair user first s in
        let (s2, again, _) = insert_pair user second s1 in
        (new ≡ true) × (again ≡ false) × (find_session_key user before s2 ≡ (true, first))
  unfolding insert_pair find_session_key
  first_login_wins user first second before s free =
      let s1 = (insert_node user first s).0 in
      ground (
        arith,
        inserted user first s,
        find-insert user first user s,
        inserted user second s1,
        find-insert user second user s1,
      )

  -- Over a list of users that keeps its documented promises, after deleteUserSessionKeyPair
  -- findSessionKey finds no session of that user and leaves its argument alone, and a further
  -- insert succeeds, is found, and reports a size one above the size before it.
  pub login_after_delete :
      (user first second before : ℕ) (s : State)
      → let s1 = delete_pair user (insert_pair user first s).0 in
        let (s2, new, n) = insert_pair user second s1 in
        (find_session_key user before s1 ≡ (false, before))
        × (new ≡ true)
        × (find_session_key user before s2 ≡ (true, second))
        × (n ≡ node_count s1 + 1)
  unfolding insert_pair find_session_key delete_pair
  login_after_delete user first second before s =
      let s0 = (insert_node user first s).0 in
      let s1 = delete_node user s0 in
      ground (
        arith,
        find-delete user user s0,
        inserted user second s1,
        find-insert user second user s1,
        count-insert user second s1,
      )
