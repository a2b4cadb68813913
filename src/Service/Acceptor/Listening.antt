-- ===== src/Service/Acceptor/Listening.antt =====
-- What keeps the accepting of netServiceAcceptor.hpp going.
use mlnsdk.Base.{ℕ, ◌+◌, ◌<◌, ◌≤◌, ◌≡◌, refl, false, List, [], ◌∷◌, arith}
use mlnsdk.Base.Outcome.{ok}
use mlnsdk.Service.Acceptor.{
  Acceptor, Pending, idle, accepting, handshaking, Completion, tcp_accept, web_accept, handshake,
  complete, complete_tcp, complete_web, complete_handshake, run, handle_accept,
  handle_websocket_layer, accept_next,
}

-- A completion without an error and whose peer is still there.
unfoldable pub IsGood : Completion → Type 0
IsGood (tcp_accept error gone) = (error ≡ false) × (gone ≡ false)
IsGood (web_accept error) = error ≡ false
IsGood (handshake error gone) = (error ≡ false) × (gone ≡ false)

unfoldable pub AllGood : List Completion → Type 0
AllGood [] = Unit
AllGood (e ∷ es) = IsGood e × AllGood es

-- Something is under way for a session that has a number already, below `n`.
unfoldable pub IsBusy : ℕ → Pending → Type 0
IsBusy n idle = ⊥
IsBusy n (accepting s) = s < n
IsBusy n (handshaking s) = s < n

IsBusy-more : (n m : ℕ) (p : Pending) → n ≤ m → IsBusy n p → IsBusy m p
unfolding IsBusy
IsBusy-more n m idle h b = b
IsBusy-more n m (accepting s) h b = omega arith
IsBusy-more n m (handshaking s) h b = omega arith

-- Both ports have an accept or a handshake under way.
unfoldable pub IsListening : Acceptor → Type 0
IsListening a = IsBusy a.next_session a.tcp_pending × IsBusy a.next_session a.web_pending

tcp-IsListening :
    (p : Pending) (a : Acceptor)
    → a.tcp_pending ≡ p
    → IsListening a
    → (b : Acceptor) × (complete_tcp p false false a ≡ ok b) × IsListening b
unfolding complete_tcp handle_accept accept_next IsListening IsBusy
tcp-IsListening idle a e l = (a, refl, l)
tcp-IsListening (handshaking s) a e l = (a, refl, l)
tcp-IsListening (accepting s) a e (t, w) = (
  _,
  refl,
  (omega arith, IsBusy-more a.next_session (a.next_session + 1) a.web_pending (omega arith) w),
)

web-IsListening :
    (p : Pending) (a : Acceptor)
    → a.web_pending ≡ p
    → IsListening a
    → IsListening (complete_web p false a)
unfolding complete_web handle_websocket_layer IsListening IsBusy
web-IsListening idle a e l = l
web-IsListening (handshaking s) a e l = l
web-IsListening (accepting s) a e (t, w) = (t, rw e at w)

handshake-IsListening :
    (p : Pending) (a : Acceptor)
    → a.web_pending ≡ p
    → IsListening a
    → (b : Acceptor) × (complete_handshake p false false a ≡ ok b) × IsListening b
unfolding complete_handshake handle_accept accept_next IsListening IsBusy
handshake-IsListening idle a e l = (a, refl, l)
handshake-IsListening (accepting s) a e l = (a, refl, l)
handshake-IsListening (handshaking s) a e (t, w) = (
  _,
  refl,
  (IsBusy-more a.next_session (a.next_session + 1) a.tcp_pending (omega arith) t, omega arith),
)

complete-IsListening :
    (e : Completion) (a : Acceptor)
    → IsGood e
    → IsListening a
    → (b : Acceptor) × (complete e a ≡ ok b) × IsListening b
unfolding complete IsGood
complete-IsListening (tcp_accept error gone) a (h, h') l =
    rw (h, h') (tcp-IsListening a.tcp_pending a refl l)
complete-IsListening (web_accept error) a h l =
    rw h (_, refl, web-IsListening a.web_pending a refl l)
complete-IsListening (handshake error gone) a (h, h') l =
    rw (h, h') (handshake-IsListening a.web_pending a refl l)

-- From an acceptor with an accept or a handshake under way on both ports, for sessions whose
-- numbers are in use, completions that have no error and whose peers are still there are all
-- handled, and both ports again have something under way for such a session.
pub IsListening-stays :
    (es : List Completion) (a : Acceptor)
    → AllGood es
    → IsListening a
    → (b : Acceptor) × (run es a ≡ ok b) × IsListening b
unfolding run AllGood
IsListening-stays [] a g l = (a, refl, l)
IsListening-stays (e ∷ es) a (g, gs) l =
    let (b, r, m) = complete-IsListening e a g l in
    let (c, r', m') = IsListening-stays es b gs m in (c, rw r r', m')
