-- ===== src/Time/Interval/Elapsed.antt =====
-- What the callbacks of time/scheduler.h are told.
use mlnsdk.Base.{ℕ, ◌+◌, ◌≤◌, ◌<◌, ◌^◌, ◌≡◌, List, [], ◌∷◌, arith}
use mlnsdk.Time.Interval.{Info, elapse}

-- The sum of what a job's callback is given at the times `ts`, and the entry after them.
unfoldable pub told : List ℕ → Info → ℕ
told [] e = 0
told (t ∷ ts) e = let (e', elapsed) = elapse t e in elapsed + told ts e'

-- The times are in order, from `t` on, and small enough for the clock.
unfoldable pub IsClock : ℕ → List ℕ → Type 0
IsClock t [] = t < 2 ^ 63
IsClock t (t' ∷ ts) = (t ≤ t') × IsClock t' ts

unfoldable pub last_time : ℕ → List ℕ → ℕ
last_time t [] = t
last_time t (t' ∷ ts) = last_time t' ts

clock-bounds :
    (t : ℕ) (ts : List ℕ) → IsClock t ts → (t ≤ last_time t ts) × (last_time t ts < 2 ^ 63)
unfolding IsClock last_time
clock-bounds t [] c = (omega arith, c)
clock-bounds t (t' ∷ ts) (h, c) = let (a, b) = clock-bounds t' ts c in (omega (arith, a, h), b)

-- If the times at which UpdateHandler runs for a job do not go back from its previous one and stay
-- below 2 ^ 63, the elapsed times given to its callback add up to its last run less its previous
-- one.
pub told_lem :
    (e : Info) (ts : List ℕ)
    → IsClock e.previous ts
    → told ts e + e.previous ≡ last_time e.previous ts
unfolding told IsClock last_time elapse
told_lem e [] c = omega arith
told_lem e (t ∷ ts) (h, c) =
    let e' = record e { previous = t; waits = e.waits + 1 } in
    omega (arith, h, told_lem e' ts c, clock-bounds t ts c)
