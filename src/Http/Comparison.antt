-- ===== src/Http/Comparison.antt =====
-- The three ways in which httpServer.hpp and httpServerCoro.hpp accept connections, compared.
use mlnsdk.Base.{
  ℕ, zero, suc, ◌+◌, ◌≡◌, refl, ap, ◌∙◌, Bool, true, false, List, [], ◌∷◌, ◌++◌, map, length,
  replicate, arith,
}
use mlnsdk.Http.Listener.{
  Errors, reached, accepted, accept_async, accept_sync, serving, successes, new_sessions,
  accepting_goes_on,
}
use mlnsdk.Http.Coroutine.Serving.{Accepted, accept_error, connection, accept_loop, do_listen}

-- Every call on the acceptor succeeds.
abbrev pub no_errors : Errors
no_errors = record { opening = false; set_option = false; bind = false; listening = false }

-- What an accept with or without an error is to a coroutine.
abbrev pub as_accepted : Bool → Accepted
as_accepted true = accept_error
as_accepted false = connection

length-new_sessions : (n : ℕ) → length (new_sessions n []) ≡ n
length-new_sessions zero = refl
length-new_sessions (suc n) = ap suc (length-new_sessions n)

accept_loop-successes : (es : List Bool) → accept_loop (map as_accepted es) ≡ successes es
unfolding accept_loop
accept_loop-successes [] = refl
accept_loop-successes (true ∷ es) = accept_loop-successes es
accept_loop-successes (false ∷ es) = ap suc (accept_loop-successes es)

successes-replicate :
    (n : ℕ) (later : List Bool)
    → successes (replicate n false ++ true ∷ later) ≡ n + successes later
successes-replicate zero later = omega arith
successes-replicate (suc n) later = omega (arith, successes-replicate n later)

accept_sync-replicate :
    (n : ℕ) (later : List Bool) → accept_sync false (replicate n false ++ true ∷ later) ≡ n
unfolding accept_sync
accept_sync-replicate zero later = refl
accept_sync-replicate (suc n) later = ap suc (accept_sync-replicate n later)

-- After n connections and a failed accept the server of startSync serves no connection that comes
-- later; the listener of startAsync and the coroutine, if no call on their acceptors failed, serve
-- every connection that is accepted later too.
pub failed_accept_ends_sync :
    (n : ℕ) (later : List Bool)
    → let es = replicate n false ++ true ∷ later in
      (accept_sync false es ≡ n)
      × (length (accepted es (accept_async no_errors)).sessions ≡ n + successes later)
      × (do_listen no_errors (map as_accepted es) ≡ n + successes later)
unfolding do_listen reached serving
failed_accept_ends_sync n later =
    let es = replicate n false ++ true ∷ later in
    (
      accept_sync-replicate n later,
      ap (λ l. length l.sessions) (accepting_goes_on no_errors es)
          ∙ length-new_sessions (successes es)
          ∙ successes-replicate n later,
      accept_loop-successes es ∙ successes-replicate n later,
    )
