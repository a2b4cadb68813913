-- ===== src/Users/Runs.antt =====
-- userManagerBase.hpp over whole runs of a server: the calls come one after another, as its lock makes
-- them, from a manager that is new.
use mlnsdk.Base.{ℕ, ◌<◌, none, List, [], ◌∷◌}
use mlnsdk.Users.{Manager, add_user_base, delete_user_base}
use mlnsdk.Users.Registry.{IsConsistent, add_user-IsConsistent, delete_user-IsConsistent}

-- A call for a session.
pub data Call : Type 0 where
  add : ℕ → Call
  delete : ℕ → Call

unfoldable pub new_manager : Manager
new_manager = record { users = []; user_of = λ session. none; next_user = 0 }

module _ (identity : ℕ → ℕ) where
  unfoldable pub call : Call → Manager → Manager
  call (add session) m = (add_user_base identity session m).0
  call (delete session) m = delete_user_base identity session m

  unfoldable pub call_all : List Call → Manager → Manager
  call_all [] m = m
  call_all (c ∷ cs) m = call_all cs (call c m)

  new_manager-IsConsistent : IsConsistent identity new_manager
  unfolding new_manager
  new_manager-IsConsistent = record {
    ordered = tt;
    own_key = λ k session h. cc;
    has_user = λ k session h. cc;
  }

  call_all-IsConsistent :
      ((session : ℕ) → 0 < identity session)
      → (cs : List Call) (m : Manager) → IsConsistent identity m
      → IsConsistent identity (call_all cs m)
  unfolding call_all call
  call_all-IsConsistent pos [] m v = v
  call_all-IsConsistent pos (add session ∷ cs) m v =
      call_all-IsConsistent pos cs (add_user_base identity session m).0
        (add_user-IsConsistent identity session m (pos session) v)
  call_all-IsConsistent pos (delete session ∷ cs) m v =
      call_all-IsConsistent pos cs (delete_user_base identity session m)
        (delete_user-IsConsistent identity session m v)

  -- If all identities are above 0, then after any calls of addUserBase and deleteUserBase on a new
  -- manager its table of users is consistent: its keys in order and above 0, every session listed under
  -- its own identity, and every listed session with a user.
  pub runs-IsConsistent :
      ((session : ℕ) → 0 < identity session)
      → (cs : List Call) → IsConsistent identity (call_all cs new_manager)
  runs-IsConsistent pos cs = call_all-IsConsistent pos cs new_manager new_manager-IsConsistent
