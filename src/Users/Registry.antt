-- ===== src/Users/Registry.antt =====
-- What `addUser`, `deleteUser`, `getUser` and `closedUser` of userManagerBase.hpp do to the users
-- that are listed.
use mlnsdk.Base.{
  ℕ, ◌+◌, ◌<◌, ◌≤◌, ◌≡◌, ◌≢◌, refl, ◌∙◌, inl, inr, none, some, List, [], ◌∷◌, ◌==◌, if◌then◌else◌,
  length, lookup, arith, Option-cases, eq→==,
}
use mlnsdk.Base.Outcome.{ok}
use mlnsdk.Users.Pairs.{UserList, delete_pair}
use mlnsdk.Users.{
  Manager, insert_ordered, erase_key, update, add_user_base, delete_user_base, get_user,
  get_user_count, closed_user,
}

-- The keys of a `std::map`, each once and in order.
abbrev pub IsOrdered : List (ℕ × ℕ) → Type 0
IsOrdered [] = Unit
IsOrdered ((k, _) ∷ []) = Unit
IsOrdered ((k, _) ∷ (j, w) ∷ m) = (k < j) × IsOrdered ((j, w) ∷ m)

-- All keys lie above `k`.
abbrev pub Above : ℕ → List (ℕ × ℕ) → Type 0
Above k [] = Unit
Above k ((j, _) ∷ m) = (k < j) × Above j m

Above-mono : (i k : ℕ) (m : List (ℕ × ℕ)) → i ≤ k → Above k m → Above i m
Above-mono i k [] h a = tt
Above-mono i k ((j, _) ∷ m) h a = (omega arith, a.1)

lookup-Above : (i k : ℕ) (m : List (ℕ × ℕ)) → Above k m → i ≤ k → lookup i m ≡ none
lookup-Above i k [] a h = refl
lookup-Above i k ((j, w) ∷ m) a h = ground (arith, lookup-Above i j m a.1)

-- The listed keys are in order.
abbrev pub IsListed : Manager → Type 0
IsListed m = Above 0 m.users

pub insert-Above :
    (i k v : ℕ) (m : List (ℕ × ℕ)) → i < k → Above i m → Above i (insert_ordered k v m)
unfolding insert_ordered
insert-Above i k v [] h a = (h, tt)
insert-Above i k v ((j, w) ∷ m) h a = ground (arith, insert-Above j k v m)

erase-Above : (i k : ℕ) (m : List (ℕ × ℕ)) → Above i m → Above i (erase_key k m)
unfolding erase_key
erase-Above i k [] a = tt
erase-Above i k ((j, w) ∷ m) a =
    ground (arith, erase-Above j k m a.1, Above-mono i j (erase_key k m))

pub lookup-insert :
    (i k v j : ℕ) (m : List (ℕ × ℕ))
    → Above i m
    → lookup k m ≡ none
    → lookup j (insert_ordered k v m) ≡ (if k == j then some v else lookup j m)
unfolding insert_ordered
lookup-insert i k v j [] a h = refl
lookup-insert i k v j ((l, w) ∷ m) a h = ground (arith, lookup-insert l k v j m a.1)

lookup-erase :
    (k j : ℕ) (m : List (ℕ × ℕ)) → lookup j (erase_key k m) ≡ (if k == j then none else lookup j m)
unfolding erase_key
lookup-erase k j [] = ground arith
lookup-erase k j ((l, w) ∷ m) = ground (arith, lookup-erase k j m)

pub length-insert :
    (k v : ℕ) (m : List (ℕ × ℕ)) → lookup k m ≡ none → length (insert_ordered k v m) ≡ length m + 1
unfolding insert_ordered
length-insert k v [] h = refl
length-insert k v ((l, w) ∷ m) h = ground (arith, length-insert k v m)

module _ (identity : ℕ → ℕ) where
  -- The listed keys are in order and above 0; a session is listed under its own identity; and a
  -- listed session has a user.
  pub record IsConsistent (m : Manager) : Type 0 where
    pub ordered : Above 0 m.users
    pub own_key : (k session : ℕ) → lookup k m.users ≡ some session → identity session ≡ k
    pub has_user : (k session : ℕ) → lookup k m.users ≡ some session → m.user_of session ≢ none

  pub add_fresh :
      (session : ℕ) (m : Manager)
      → lookup (identity session) m.users ≡ none
      → add_user_base identity session m ≡ (
        record {
          users = insert_ordered (identity session) session m.users;
          user_of = update m.user_of session (some m.next_user);
          next_user = m.next_user + 1;
        },
        some m.next_user,
      )
  unfolding add_user_base
  add_fresh session m free = rw (free, add_user_base)

  -- If the keys are in order and above 0 and the session's identity is not listed, addUserBase
  -- returns the new user and gives it to the session; getUser then finds the session under its
  -- identity and under every other key what it found before, and getUserCount is one more.
  pub add_user_lists :
      (session other : ℕ) (m : Manager)
      → Above 0 m.users
      → lookup (identity session) m.users ≡ none
      → let (m', result) = add_user_base identity session m in
        (result ≡ some m.next_user)
        × (m'.user_of session ≡ some m.next_user)
        × (get_user other m'
            ≡ (if identity session == other then some session else get_user other m))
        × (get_user_count m' ≡ get_user_count m + 1)
  unfolding get_user get_user_count
  add_user_lists session other m a free = rw (add_fresh session m free) (
      ground (
        arith,
        lookup-insert 0 (identity session) session other m.users a,
        length-insert (identity session) session m.users,
      ))

  -- For a session whose identity is listed, addUserBase returns no user and leaves the table
  -- alone, and yet gives the session a new user.
  pub add_user_again :
      (session listed : ℕ) (m : Manager)
      → lookup (identity session) m.users ≡ some listed
      → let (m', result) = add_user_base identity session m in
        (result ≡ none) × (m'.user_of session ≡ some m.next_user) × (m'.users ≡ m.users)
  unfolding add_user_base
  add_user_again session listed m known = rw (known, add_user_base) (ground arith)

  -- For a session that has a user, deleteUserBase takes its user away; getUser then finds nothing
  -- under its identity and under every other key what it found before.
  pub delete_user_unlists :
      (session user other : ℕ) (m : Manager)
      → m.user_of session ≡ some user
      → let m' = delete_user_base identity session m in
        (m'.user_of session ≡ none)
        × (get_user other m' ≡ (if identity session == other then none else get_user other m))
  unfolding delete_user_base get_user
  delete_user_unlists session user other m known =
      ground (arith, lookup-erase (identity session) other m.users)

  -- For a session with an identity above 0, addUserBase keeps the table of users consistent: its
  -- keys in order and above 0, every session listed under its own identity, and every listed
  -- session with a user.
  pub add_user-IsConsistent :
      (session : ℕ) (m : Manager)
      → 0 < identity session
      → IsConsistent m
      → IsConsistent (add_user_base identity session m).0
  unfolding add_user_base
  add_user-IsConsistent session m pos v = elim (Option-cases (lookup (identity session) m.users)) [
    | inl free ↦
        let new = lookup-insert 0 (identity session) session in
        rw (add_fresh session m free) (record {
          ordered = insert-Above 0 (identity session) session m.users pos v.ordered;
          own_key = λ k o h. ground (arith, new k m.users v.ordered free, v.own_key k o);
          has_user = λ k o h. ground (arith, new k m.users v.ordered free, v.has_user k o);
        })
    | inr (listed, known) ↦
        rw (known, add_user_base)
          (record {
            ordered = v.ordered;
            own_key = v.own_key;
            has_user = λ k o h. ground (arith, v.has_user k o h);
          })
  ]

  -- deleteUserBase keeps the table of users consistent: its keys in order and above 0, every
  -- session listed under its own identity, and every listed session with a user.
  pub delete_user-IsConsistent :
      (session : ℕ) (m : Manager)
      → IsConsistent m
      → IsConsistent (delete_user_base identity session m)
  unfolding delete_user_base
  delete_user-IsConsistent session m v = elim (Option-cases (m.user_of session)) [
    | inl nobody ↦ rw (nobody, delete_user_base) v
    | inr (user, known) ↦ elim (Option-cases (lookup (identity session) m.users)) [
      | inl missing ↦
          rw (known, delete_user_base)
            (rw (missing, delete_user_base)
              (record {
                ordered = v.ordered;
                own_key = v.own_key;
                has_user = λ k o h. ground (arith, v.has_user k o h, v.own_key k o h);
              }))
      | inr (listed, found) ↦
          let gone = lookup-erase (identity session) in
          rw (known, delete_user_base)
            (rw (found, delete_user_base)
              (record {
                ordered = erase-Above 0 (identity session) m.users v.ordered;
                own_key = λ k o h. ground (arith, gone k m.users, v.own_key k o);
                has_user = λ k o h. ground (arith, gone k m.users, v.has_user k o, v.own_key k o);
              }))
    ]
  ]

  -- If the keys are in order and above 0 and the session's identity is not listed, then after
  -- addUserBase closedUser removes only the pair of the session's user, so that getUser still
  -- finds the session under its identity and getUserCount still counts it.
  pub closed_session_stays_listed :
      (l : UserList) (user_id : ℕ → ℕ) (session : ℕ) (m : Manager) (pairs : l.State)
      → Above 0 m.users
      → lookup (identity session) m.users ≡ none
      → let m' = (add_user_base identity session m).0 in
        (closed_user l user_id session m' pairs
          ≡ ok (m', delete_pair l (user_id m.next_user) pairs))
        × (get_user (identity session) m' ≡ some session)
        × (get_user_count m' ≡ get_user_count m + 1)
  unfolding closed_user
  closed_session_stays_listed l user_id session m pairs a free =
      let (_, owner, found, count) = add_user_lists session (identity session) m a free in
      (
        rw (owner, closed_user),
        found ∙ rw (eq→== (identity session) (identity session) refl),
        count,
      )
