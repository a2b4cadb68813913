-- ===== src/Sample/Users.antt =====
-- The users of the sample server of mlnserver/serviceEventReceiver.cpp while sessions come and go.
use mlnsdk.Base.{
  ℕ, ◌+◌, ◌<◌, ◌≡◌, ◌≢◌, inl, inr, Option-cases, refl, ap, ◌∙◌, Bool, true, false, ◌||◌, none, some,
  List, [], ◌∷◌, ◌==◌, length, lookup, arith,
}
use mlnsdk.Base.Outcome.{Outcome, ok, ◌>>=◌}
use mlnsdk.Sample.{sample_on_accept, sample_on_close}
use mlnsdk.Users.{Manager, insert_ordered, update, get_user, get_user_count, closed_user}
use mlnsdk.Users.Pairs.{UserList, delete_pair}
use mlnsdk.Users.Registry.{Above, add_fresh, insert-Above, lookup-insert, length-insert}
use mlnsdk.Users.Runs.{new_manager}

-- A session is accepted, or it is closed.
pub data Visit : Type 0 where
  arrives : ℕ → Visit
  leaves : ℕ → Visit

abbrev pub has : ℕ → List ℕ → Bool
has s [] = false
has s (t ∷ ts) = (t == s) || has s ts

-- The sessions that are accepted.
abbrev pub arrivals : List Visit → List ℕ
arrivals [] = []
arrivals (arrives s ∷ es) = s ∷ arrivals es
arrivals (leaves s ∷ es) = arrivals es

-- Every session is accepted once, and closed only behind that. `known` are those of before.
abbrev pub IsRun : List ℕ → List Visit → Type 0
IsRun known [] = Unit
IsRun known (arrives s ∷ es) = (has s known ≡ false) × IsRun (s ∷ known) es
IsRun known (leaves s ∷ es) = (has s known ≡ true) × IsRun known es

-- The sessions known behind a run.
abbrev arrived : List ℕ → List Visit → List ℕ
arrived known [] = known
arrived known (arrives s ∷ es) = arrived (s ∷ known) es
arrived known (leaves s ∷ es) = arrived known es

has-arrived :
    (s : ℕ) (known : List ℕ) (es : List Visit)
    → (has s known || has s (arrivals es)) ≡ true
    → has s (arrived known es) ≡ true
has-arrived s known [] h = ground arith
has-arrived s known (arrives t ∷ es) h = has-arrived s (t ∷ known) es (ground arith)
has-arrived s known (leaves t ∷ es) h = has-arrived s known es h

length-arrived :
    (known : List ℕ) (es : List Visit)
    → length (arrived known es) ≡ length known + length (arrivals es)
length-arrived known [] = omega arith
length-arrived known (arrives s ∷ es) = omega (arith, length-arrived (s ∷ known) es)
length-arrived known (leaves s ∷ es) = length-arrived known es

module _ (identity : ℕ → ℕ) (l : UserList) (user_id : ℕ → ℕ) where
  -- What the event receiver does.
  abbrev pub react : Visit → Manager × l.State → Outcome (Manager × l.State)
  react (arrives s) (m, pairs) = ok (sample_on_accept identity s m, pairs)
  react (leaves s) (m, pairs) = sample_on_close l user_id s m pairs

  abbrev pub react_all : List Visit → Manager × l.State → Outcome (Manager × l.State)
  react_all [] st = ok st
  react_all (e ∷ es) st = react e st >>= react_all es

module _ (identity : ℕ → ℕ) (pos : (s : ℕ) → 0 < identity s)
    (apart : (s t : ℕ) → identity s ≡ identity t → s ≡ t) where
  -- The sessions that were accepted are the users.
  record Holds (known : List ℕ) (m : Manager) : Type 0 where
    above : Above 0 m.users
    listed : (s : ℕ) → has s known ≡ true → lookup (identity s) m.users ≡ some s
    has_user : (s : ℕ) → has s known ≡ true → m.user_of s ≢ none
    free : (s : ℕ) → has s known ≡ false → lookup (identity s) m.users ≡ none
    count : length m.users ≡ length known

  new_manager-Holds : Holds [] new_manager
  unfolding new_manager
  new_manager-Holds = record {
    above = tt;
    listed = λ s h. cc;
    has_user = λ s h. cc;
    free = λ s h. refl;
    count = refl;
  }

  abbrev added : ℕ → Manager → Manager
  added s m = record {
    users = insert_ordered (identity s) s m.users;
    user_of = update m.user_of s (some m.next_user);
    next_user = m.next_user + 1;
  }

  added_lem :
      (s : ℕ) (known : List ℕ) (m : Manager)
      → has s known ≡ false
      → Holds known m
      → sample_on_accept identity s m ≡ added s m
  unfolding sample_on_accept
  added_lem s known m new v = ap (λ r. r.0) (add_fresh identity s m (v.free s new))

  added-Holds :
      (s : ℕ) (known : List ℕ) (m : Manager)
      → has s known ≡ false
      → Holds known m
      → Holds (s ∷ known) (added s m)
  added-Holds s known m new v =
      let free = v.free s new in
      let found = λ (t : ℕ). lookup-insert 0 (identity s) s (identity t) m.users v.above free in
      record {
        above = insert-Above 0 (identity s) s m.users (pos s) v.above;
        listed = λ t h. ground (arith, found t, apart s t, v.listed t);
        has_user = λ t h. ground (arith, v.has_user t);
        free = λ t h. ground (arith, found t, apart s t, v.free t);
        count =
            length-insert (identity s) s m.users free ∙ ap (λ (n : ℕ). n + 1) v.count ∙ omega arith;
      }

  module _ (l : UserList) (user_id : ℕ → ℕ) where
    on_close_lem :
        (s : ℕ) (known : List ℕ) (m : Manager) (pairs : l.State)
        → has s known ≡ true
        → Holds known m
        → (pairs' : l.State) × (sample_on_close l user_id s m pairs ≡ ok (m, pairs'))
    unfolding sample_on_close closed_user
    on_close_lem s known m pairs old v = elim (Option-cases (m.user_of s)) [
      | inl nobody ↦ absurd (v.has_user s old nobody)
      | inr (user, is_user) ↦ (delete_pair l (user_id user) pairs, rw (is_user, closed_user) refl)
    ]

    run-Holds :
        (es : List Visit) (known : List ℕ) (m : Manager) (pairs : l.State)
        → Holds known m
        → IsRun known es
        → (m' : Manager) × (pairs' : l.State) × (react_all identity l user_id es (m, pairs)
            ≡ ok (m', pairs'))
          × Holds (arrived known es) m'
    run-Holds [] known m pairs v r = (m, pairs, refl, v)
    run-Holds (arrives s ∷ es) known m pairs v (new, r) =
        let (m', pairs', e, v') =
          run-Holds es (s ∷ known) (added s m) pairs (added-Holds s known m new v) r in
        (m', pairs', rw (added_lem s known m new v) e, v')
    run-Holds (leaves s ∷ es) known m pairs v (old, r) =
        let (pairs1, e1) = on_close_lem s known m pairs old v in
        let (m', pairs', e, v') = run-Holds es known m pairs1 v r in (m', pairs', rw e1 e, v')

    -- Let all identities be above 0 and differ from session to session. In every run of onAccept and
    -- onClose from a new user manager, in which each session is accepted once and closed only behind
    -- that, all calls return, and every session that was ever accepted is still among the users: the
    -- manager finds it under its identity and counts it, whichever were closed.
    pub users_stay :
        (es : List Visit) (pairs : l.State)
        → IsRun [] es
        → (m : Manager) × (pairs' : l.State) × (react_all identity l user_id es (new_manager, pairs)
            ≡ ok (m, pairs'))
          × (get_user_count m ≡ length (arrivals es))
          × ((s : ℕ) → has s (arrivals es) ≡ true → get_user (identity s) m ≡ some s)
    unfolding get_user get_user_count
    users_stay es pairs r =
        let (m, pairs', e, v) = run-Holds es [] new_manager pairs new_manager-Holds r in
        (
          m,
          pairs',
          e,
          omega (arith, v.count, length-arrived [] es),
          λ s h. v.listed s (has-arrived s [] es h),
        )
