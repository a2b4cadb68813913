-- ===== src/Http/Coroutine/Starting.antt =====
-- httpServerCoro.hpp: `startAsync` and `acceptAsync`. The port is of 16 bits, and the number of
-- threads is not negative. What the accepts come to is an argument.
use mlnsdk.Base.{
  ℕ, zero, suc, ◌≢◌, ◌≡◌, ◌<◌, Bool, true, false, Option, none, some, List, ◌==◌, if◌then◌else◌,
  refl, arith, ne→==,
}
use mlnsdk.Http.Listener.{
  Errors, Stage, created, opened, reusing, bound, listening, reached, loop_threads,
}
use mlnsdk.Http.Coroutine.Serving.{Accepted, spawned, do_listen}

-- What the started server does: the threads that run its event loop, and how many connections
-- coroutines are spawned for.
pub record Running : Type 0 where
  pub threads : ℕ
  pub connections : ℕ

-- `acceptAsync`: `none` if `reserve` throws, for `threads - 1` below zero. The coroutine of
-- `do_listen` is spawned before, and runs on the event loop only.
unfoldable pub coro_accept_async : ℕ → Errors → List Accepted → Option Running
coro_accept_async threads e accepts = elim (loop_threads threads) [
  | none ↦ none
  | some n ↦ some (record { threads = n; connections = do_listen e accepts })
]

-- `startAsync`: whether it returns true, and what its thread then does.
unfoldable pub coro_start : ℕ → ℕ → Errors → List Accepted → Bool × Option Running
coro_start port threads e accepts =
    if port == 0 then (false, none) else (true, coro_accept_async threads e accepts)

spawned-none :
    (stage : Stage) (accepts : List Accepted) → stage ≢ listening → spawned stage accepts ≡ 0
spawned-none created accepts h = refl
spawned-none opened accepts h = refl
spawned-none reusing accepts h = refl
spawned-none bound accepts h = refl
spawned-none listening accepts h = absurd (h refl)

-- Where a call on the acceptor fails before it listens, startAsync for a port and threads above 0
-- returns true all the same, and runs all of the threads without ever serving a connection.
pub failed_start_unnoticed :
    (port threads : ℕ) (e : Errors) (accepts : List Accepted)
    → 0 < port
    → 0 < threads
    → reached e ≢ listening
    → coro_start port threads e accepts
      ≡ (true, some (record { threads = threads; connections = 0 }))
unfolding coro_start coro_accept_async loop_threads do_listen
failed_start_unnoticed port zero e accepts p t h = absurd (omega arith)
failed_start_unnoticed port (suc threads) e accepts p t h =
    rw (ne→== port 0 (λ q. omega arith), spawned-none (reached e) accepts h) refl
