-- ===== src/Service/Connector/Connecting.antt =====
-- How many sessions `connectWait` of netServiceConnector.hpp opens.
use mlnsdk.Base.{
  ℕ, zero, suc, ◌+◌, ◌<◌, ◌^◌, ◌≡◌, refl, ap, ap₂, ◌∙◌, true, false, Option, none, some, List, [],
  ◌∷◌, ◌++◌, append_assoc, arith,
}
use mlnsdk.Base.Outcome.{ok}
use mlnsdk.Service.Connector.{
  Connector, Answer, resolved, resolve_once, is_resolved, set_end_point, create_connect_session,
  connect_async, connect_next, handle_connect_async, complete_attempt, complete_next, run_attempts,
  expire_timer_ready,
}

-- An attempt that connects, and the next one can be started.
abbrev good : Answer
good = record { is_open = true; error = false; gone = false; opens = true }

unfoldable pub copies : ℕ → List Answer
copies zero = []
copies (suc n) = good ∷ copies n

-- `n` sessions from number `s` on.
unfoldable pub numbers : ℕ → ℕ → List ℕ
numbers s zero = []
numbers s (suc n) = s ∷ numbers (suc s) n

attempting : ℕ → ℕ → ℕ → List ℕ → Connector → Connector
attempting session remain next connected c = record c {
  attempt = some (record { session = session; remain = remain });
  next_session = next;
  connected = connected;
}

unfoldable pub finished : ℕ → List ℕ → Connector → Connector
finished next connected c = record c { attempt = none; next_session = next; connected = connected }

step_last :
    (s next : ℕ) (ss : List ℕ) (c : Connector)
    → complete_next good (attempting s 0 next ss c) ≡ ok (finished next (ss ++ s ∷ []) c)
unfolding complete_next complete_attempt handle_connect_async attempting finished
step_last s next ss c = refl

step_more :
    (s n next : ℕ) (ss : List ℕ) (c : Connector)
    → suc n < 2 ^ 16
    → complete_next good (attempting s (suc n) next ss c)
      ≡ ok (attempting next n (suc next) (ss ++ s ∷ []) c)
unfolding complete_next complete_attempt handle_connect_async attempting connect_next
    create_connect_session
step_more s n next ss c h = ground arith

run-attempting :
    (n s : ℕ) (ss : List ℕ) (c : Connector)
    → n < 2 ^ 16
    → run_attempts (copies (suc n)) (attempting s n (suc s) ss c)
      ≡ ok (finished (suc s + n) (ss ++ numbers s (suc n)) c)
unfolding run_attempts copies numbers
run-attempting zero s ss c h =
    rw (step_last s (suc s) ss c) (ap (λ k. ok (finished k (ss ++ s ∷ []) c)) (omega arith))
run-attempting (suc n) s ss c h = rw (step_more s n (suc s) ss c h) (
    run-attempting n (suc s) (ss ++ s ∷ []) c (omega arith)
    ∙ ap₂ (λ k ts. ok (finished k ts c)) {x = suc (suc s) + n} {y = suc s + suc n} (omega arith)
        (append_assoc ss (s ∷ []) (numbers (suc s) (suc n))))

attempt_of :
    (resolve : List ℕ → ℕ → Option ℕ) (e n : ℕ) (c : Connector)
    → c.endpoint ≡ resolved e
    → suc n < 2 ^ 16
    → (connect_async resolve true (suc n) c).0
      ≡ attempting c.next_session n (suc c.next_session) c.connected (expire_timer_ready c)
unfolding connect_async set_end_point resolve_once is_resolved create_connect_session
    expire_timer_ready attempting
attempt_of resolve e n c r h = ground arith

-- If the connector has an endpoint and every attempt connects, connectAsync for a count of 1 to
-- 65535 sessions passes just that many new sessions to onConnect, each once and in the order of
-- creation, and leaves no attempt under way.
pub connect_async_lem :
    (resolve : List ℕ → ℕ → Option ℕ) (e n : ℕ) (c : Connector)
    → c.endpoint ≡ resolved e
    → suc n < 2 ^ 16
    → run_attempts (copies (suc n)) (connect_async resolve true (suc n) c).0
      ≡ ok (
          finished
            (c.next_session + suc n)
            (c.connected ++ numbers c.next_session (suc n))
            (expire_timer_ready c))
connect_async_lem resolve e n c r h =
    ap (run_attempts (copies (suc n))) (attempt_of resolve e n c r h)
    ∙ run-attempting n c.next_session c.connected (expire_timer_ready c) (omega arith)
    ∙ ap
        (λ k.
          ok (finished k (c.connected ++ numbers c.next_session (suc n)) (expire_timer_ready c)))
        {x = suc c.next_session + n} {y = c.next_session + suc n} (omega arith)
