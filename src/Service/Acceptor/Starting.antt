-- ===== src/Service/Acceptor/Starting.antt =====
-- What `acceptWait` of netServiceAcceptor.hpp leaves under way where it fails.
use mlnsdk.Base.{ℕ, zero, suc, ◌+◌, ◌≡◌, List, [], ◌∷◌, ◌++◌}
use mlnsdk.Session.Types.{SessionType, tcp}
use mlnsdk.Service.Acceptor.{Acceptor, accepting}

-- The sessions that are accepted: the one that waits, and then new ones.
unfoldable pub accepted_from : ℕ → ℕ → ℕ → List (SessionType × ℕ)
accepted_from zero waiting next = []
accepted_from (suc n) waiting next = (tcp, waiting) ∷ accepted_from n next (next + 1)

-- What `n` connections make of an acceptor.
pub record HasAccepted (n waiting : ℕ) (a b : Acceptor) : Type 0 where
  pub sessions : b.accepted ≡ a.accepted ++ accepted_from n waiting a.next_session
  pub no_timer : b.update_waits ≡ a.update_waits
  pub same_web : b.web_pending ≡ a.web_pending
  pub next : ℕ
  pub waits : b.tcp_pending ≡ accepting next
