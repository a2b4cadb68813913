-- ===== src/Service/Acceptor/Stopping.antt =====
-- What ends the accepting of netServiceAcceptor.hpp.
use mlnsdk.Base.{ℕ, suc, ◌≡◌, refl, sym, ap, subst, ◌∙◌, Bool, true, false, List, [], ◌∷◌, ◌++◌}
use mlnsdk.Base.Outcome.{Outcome, ok, thrown, fault, ◌>>=◌}
use mlnsdk.Session.Types.{SessionType, tcp, websocket}
use mlnsdk.Service.Acceptor.{
  Acceptor, Pending, idle, accepting, handshaking, Completion, tcp_accept, web_accept, handshake,
  complete, complete_tcp, complete_web, complete_handshake, run, handle_accept, accept_next,
}

-- How many sessions of the websocket port were accepted.
unfoldable pub web_accepts : List (SessionType × ℕ) → ℕ
web_accepts [] = 0
web_accepts ((tcp, s) ∷ ss) = web_accepts ss
web_accepts ((websocket, s) ∷ ss) = suc (web_accepts ss)

web_accepts-snoc :
    (ss : List (SessionType × ℕ)) (s : ℕ) → web_accepts (ss ++ (tcp, s) ∷ []) ≡ web_accepts ss
unfolding web_accepts
web_accepts-snoc [] s = refl
web_accepts-snoc ((tcp, x) ∷ ss) s = web_accepts-snoc ss s
web_accepts-snoc ((websocket, x) ∷ ss) s = ap suc (web_accepts-snoc ss s)

-- The websocket port has nothing under way, and `n` sessions of it were accepted.
IsStopped : ℕ → Acceptor → Type 0
IsStopped n a = (a.web_pending ≡ idle) × (web_accepts a.accepted ≡ n)

Leaves : (Acceptor → Type 0) → Outcome Acceptor → Type 0
Leaves P (ok a) = P a
Leaves P thrown = Unit
Leaves P fault = Unit

Leaves-bind :
    (P Q : Acceptor → Type 0) (r : Outcome Acceptor) (k : Acceptor → Outcome Acceptor)
    → Leaves P r
    → ((a : Acceptor) → P a → Leaves Q (k a))
    → Leaves Q (r >>= k)
unfolding Leaves
Leaves-bind P Q (ok a) k h f = f a h
Leaves-bind P Q thrown k h f = tt
Leaves-bind P Q fault k h f = tt

Leaves-ok :
    (P : Acceptor → Type 0) {r : Outcome Acceptor} {a : Acceptor} → Leaves P r → r ≡ ok a → P a
unfolding Leaves
Leaves-ok P h e = rw e at h

tcp-IsStopped :
    (n : ℕ) (p : Pending) (error gone : Bool) (a : Acceptor)
    → IsStopped n a
    → Leaves (IsStopped n) (complete_tcp p error gone a)
unfolding complete_tcp handle_accept accept_next IsStopped Leaves
tcp-IsStopped n idle error gone a i = i
tcp-IsStopped n (handshaking s) error gone a i = i
tcp-IsStopped n (accepting s) true gone a i = i
tcp-IsStopped n (accepting s) false true a i = tt
tcp-IsStopped n (accepting s) false false a (i, c) = (i, web_accepts-snoc a.accepted s ∙ c)

handshake-IsStopped :
    (n : ℕ) (error gone : Bool) (a : Acceptor)
    → IsStopped n a
    → complete_handshake a.web_pending error gone a ≡ ok a
unfolding complete_handshake IsStopped
handshake-IsStopped n error gone a (i, c) =
    ap (λ p. complete_handshake p error gone a) {x = a.web_pending} {y = idle} i

web-IsStopped :
    (n : ℕ) (error : Bool) (a : Acceptor) → IsStopped n a → complete_web a.web_pending error a ≡ a
unfolding complete_web IsStopped
web-IsStopped n error a (i, c) = ap (λ p. complete_web p error a) {x = a.web_pending} {y = idle} i

complete-IsStopped :
    (n : ℕ) (e : Completion) (a : Acceptor) → IsStopped n a → Leaves (IsStopped n) (complete e a)
unfolding complete Leaves
complete-IsStopped n (tcp_accept error gone) a i = tcp-IsStopped n a.tcp_pending error gone a i
complete-IsStopped n (web_accept error) a i =
    subst (IsStopped n) (sym (web-IsStopped n error a i)) i
complete-IsStopped n (handshake error gone) a i =
    subst (Leaves (IsStopped n)) (sym (handshake-IsStopped n error gone a i)) i

run-IsStopped :
    (n : ℕ) (es : List Completion) (a : Acceptor) → IsStopped n a → Leaves (IsStopped n) (run es a)
unfolding run Leaves
run-IsStopped n [] a i = i
run-IsStopped n (e ∷ es) a i =
    Leaves-bind (IsStopped n) (IsStopped n) (complete e a) (run es) (complete-IsStopped n e a i)
      (run-IsStopped n es)

-- Once nothing is under way on the websocket port, that stays so and no websocket session is
-- accepted any more, whatever is completed afterwards on either port.
web_stays_stopped :
    (es : List Completion) (a b : Acceptor)
    → a.web_pending ≡ idle
    → run es a ≡ ok b
    → (b.web_pending ≡ idle) × (web_accepts b.accepted ≡ web_accepts a.accepted)
unfolding IsStopped
web_stays_stopped es a b p e =
    Leaves-ok (IsStopped (web_accepts a.accepted)) {r = run es a}
      (run-IsStopped (web_accepts a.accepted) es a (p, refl)) e

-- When completions that start with a failed handshake on the websocket port have been handled,
-- nothing is under way on that port and no websocket session has been accepted since, whatever the
-- other completions are.
pub failed_handshake_stops :
    (es : List Completion) (session : ℕ) (gone : Bool) (a b : Acceptor)
    → a.web_pending ≡ handshaking session
    → run (handshake true gone ∷ es) a ≡ ok b
    → (b.web_pending ≡ idle) × (web_accepts b.accepted ≡ web_accepts a.accepted)
unfolding run complete complete_handshake handle_accept
failed_handshake_stops es session gone a b p e =
    web_stays_stopped es (record a { web_pending = idle }) b refl
      (ap (λ q. complete_handshake q true gone a >>= run es) {x = handshaking session}
          {y = a.web_pending} (sym p)
        ∙ e)
