-- ===== src/Session/Lifecycle.antt =====
-- The life of a session: open, about to close, closed.
use mlnsdk.Base.{if◌then◌else◌, ◌+◌, ◌≤◌, ◌≡◌, List, [], ◌∷◌, arith}
use mlnsdk.Base.Outcome.{ok}
use mlnsdk.Session.Types.{Session, open_status, closed, is_closed}
use mlnsdk.Session.Events.{
  Event, DispatchCallback, step, run, Ensures, Ensures-map, Ensures-bind, Ensures-ok, closes,
  AreQuiet,
}
use mlnsdk.Session.Moves.{alive, rank, Moves, step-Moves}

-- The close is told once, when the session leaves its last live state, and no state comes back.
pub record Advances (s t : Session) : Type 0 where
  pub told : closes t.log + alive t.status ≡ closes s.log + alive s.status
  pub ordered : rank s.status ≤ rank t.status

module _ (callback : DispatchCallback) (quiet : AreQuiet callback) where
  pub run-Advances : (es : List Event) (s : Session) → Ensures (Advances s) (run callback es s)
  unfolding run
  run-Advances [] s = ground arith
  run-Advances (e ∷ es) s =
      Ensures-bind (Advances s) (Advances s) (step callback e s) (run callback es)
        (Ensures-map (Moves s) (Advances s) _ (λ t m. record { told = m.told; ordered = m.ordered })
          (step-Moves callback quiet e s))
        λ t a. Ensures-map (Advances t) (Advances s) _ (λ u b. ground arith) (run-Advances es t)

  -- With a dispatch callback that leaves the status, the timers' and retry counters, the posted
  -- tasks and the kinds of log entries counted here alone, every run of events from an open
  -- session that returns has told onClose exactly once more if the session is closed at its end,
  -- and not once if it is not.
  pub close_told_once :
      (es : List Event) (s t : Session)
      → s.status ≡ open_status
      → run callback es s ≡ ok t
      → closes t.log ≡ (if is_closed t.status then closes s.log + 1 else closes s.log)
  close_told_once es s t started e =
      let a : Advances s t = Ensures-ok (Advances s) (run-Advances es s) e in ground arith

  -- With a quiet dispatch callback, every run of events from a closed session that returns ends
  -- with the session closed and has not told onClose again.
  pub closed_stays_closed :
      (es : List Event) (s t : Session)
      → s.status ≡ closed
      → run callback es s ≡ ok t
      → (t.status ≡ closed) × (closes t.log ≡ closes s.log)
  closed_stays_closed es s t ended e =
      let a : Advances s t = Ensures-ok (Advances s) (run-Advances es s) e in ground arith
