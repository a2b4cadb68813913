-- ===== src/Http/Listener.antt =====
-- httpServer.hpp: `listener`, and the starts of the server. What Asio and the operating system report
-- for each call is an argument; the port is of 16 bits.
use mlnsdk.Base.{
  ℕ, zero, suc, ◌≡◌, refl, ap, ◌∙◌, Bool, true, false, List, [], ◌∷◌, ◌==◌, if◌then◌else◌, Option,
  none, some,
}
use mlnsdk.Http.Callbacks.{Connection, run}

-- What each call on the acceptor of a new listener gives as error.
pub record Errors : Type 0 where
  pub opening : Bool
  pub set_option : Bool
  pub bind : Bool
  pub listening : Bool

pub data Stage : Type 0 where
  created opened reusing bound listening : Stage

-- A listener: how far its constructor came, the accepts under way, and its sessions.
pub record Listener : Type 0 where
  pub stage : Stage
  pub accepts : ℕ
  pub sessions : List Connection

-- The constructor.
unfoldable pub reached : Errors → Stage
reached e =
    if e.opening
    then created
    else if e.set_option
    then opened
    else if e.bind
    then reusing
    else if e.listening
    then bound
    else listening

unfoldable pub new_listener : Errors → Listener
new_listener e = record { stage = reached e; accepts = 0; sessions = [] }

-- `do_accept`, and `run`, which only calls it.
unfoldable pub do_accept : Listener → Listener
do_accept l = record l { accepts = suc l.accepts }

-- `on_accept`, given whether there is an error.
unfoldable pub on_accept : Bool → Listener → Listener
unfolding do_accept
on_accept true l = do_accept l
on_accept false l = do_accept (record l { sessions = run ∷ l.sessions })

-- An accept that is under way completes.
unfoldable pub complete_accept : ℕ → Bool → Listener → Listener
complete_accept zero error l = l
complete_accept (suc n) error l = on_accept error (record l { accepts = n })

unfoldable pub accepted : List Bool → Listener → Listener
accepted [] l = l
accepted (error ∷ es) l = accepted es (complete_accept l.accepts error l)

-- `AcceptSync`, given whether the acceptor throws when it is made, and whether each `accept` throws:
-- how many connections a thread is started for. An exception leaves the loop.
unfoldable pub accept_sync : Bool → List Bool → ℕ
accept_sync true accepts = 0
accept_sync false [] = 0
accept_sync false (true ∷ later) = 0
accept_sync false (false ∷ later) = suc (accept_sync false later)

-- `startSync` and `startAsync`: whether the server was started on a thread of its own.
unfoldable pub start : ℕ → Bool
start port = if port == 0 then false else true

-- `AcceptAsync`: the listener, and the threads that run the event loop.
unfoldable pub accept_async : Errors → Listener
unfolding do_accept
accept_async e = do_accept (new_listener e)

-- The threads that then run the event loop, the caller's included; `reserve` throws for `threads - 1`
-- below zero.
unfoldable pub loop_threads : ℕ → Option ℕ
loop_threads zero = none
loop_threads (suc extra) = some (suc extra)

-- A listener with one accept under way.
unfoldable pub serving : Stage → List Connection → Listener
serving stage sessions = record { stage = stage; accepts = 1; sessions = sessions }

abbrev pub successes : List Bool → ℕ
successes [] = 0
successes (true ∷ es) = successes es
successes (false ∷ es) = suc (successes es)

abbrev pub new_sessions : ℕ → List Connection → List Connection
new_sessions zero sessions = sessions
new_sessions (suc n) sessions = run ∷ new_sessions n sessions

new_sessions-cons :
    (n : ℕ) (ss : List Connection) → new_sessions n (run ∷ ss) ≡ run ∷ new_sessions n ss
new_sessions-cons zero ss = refl
new_sessions-cons (suc n) ss = ap (λ rs. run ∷ rs) (new_sessions-cons n ss)

accepted-serving :
    (es : List Bool) (stage : Stage) (ss : List Connection)
    → accepted es (serving stage ss) ≡ serving stage (new_sessions (successes es) ss)
unfolding accepted complete_accept on_accept do_accept serving
accepted-serving [] stage ss = refl
accepted-serving (true ∷ es) stage ss = accepted-serving es stage ss
accepted-serving (false ∷ es) stage ss =
    accepted-serving es stage (run ∷ ss) ∙ ap (serving stage) (new_sessions-cons (successes es) ss)

-- Whatever call of its constructor failed and whichever accepts fail, the listener of startAsync
-- has one accept under way after them, and one new session for each accept without an error.
pub accepting_goes_on :
    (e : Errors) (es : List Bool)
    → accepted es (accept_async e) ≡ serving (reached e) (new_sessions (successes es) [])
unfolding accept_async new_listener do_accept serving
accepting_goes_on e es = accepted-serving es (reached e) []
