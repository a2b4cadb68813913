-- ===== src/Time/Strand/Gone.antt =====
-- When the scheduler of simpleScheduler.h has a strand to run on.
use mlnsdk.Base.{
  ℕ, ◌+◌, ◌<◌, ◌≡◌, refl, Bool, true, false, none, some, [], ◌∷◌, ◌++◌, length, arith,
}
use mlnsdk.Base.Outcome.{ok, thrown, ◌>>=◌}
use mlnsdk.Time.Simple.{add_job_interval, new_entry, reserve_update}
use mlnsdk.Time.Strand.{
  Stranded, lock, get_strand, is_some, timer_start, make_strand, add_job, update_handler,
}

-- Once the external strand of a SimpleSchedulerES is gone, UpdateHandler changes nothing, so that
-- no job is called and the timer does not wait again, and both TimerStart and AddJobInterval for a
-- wait count above 0 throw.
pub strand_gone :
    (alive : ℕ → Bool) (strand made wait_count callback : ℕ) (error : Bool) (s : Stranded)
    → s.using_external_strand ≡ true
    → s.external ≡ some strand
    → alive strand ≡ false
    → 0 < wait_count
    → (update_handler alive error s ≡ s)
      × (timer_start alive s ≡ thrown)
      × (add_job alive made wait_count (some callback) s ≡ thrown)
unfolding update_handler timer_start add_job make_strand get_strand lock is_some
strand_gone alive strand made wait_count callback error s u x a p =
    (rw (u, x) (rw a refl), rw (u, x) (rw a refl), rw u (ground arith))

-- The scheduler with its strand, the new job and the timer with_job.
unfoldable pub with_job : ℕ → ℕ → ℕ → Stranded → Stranded
with_job made wait_count callback s =
    let t = s.scheduler in
    record s {
      own = some made;
      scheduler = record t {
        entries = t.entries ++ new_entry (length t.entries) t.increment wait_count callback ∷ [];
        processing = true;
        timers = t.timers + 1;
      };
    }

-- A SimpleSchedulerES with a strand of its own and none made yet cannot be started: TimerStart
-- throws. After AddJobInterval for a wait count above 0, while there is room, it has the strand
-- and the new entry, and TimerStart makes the timer wait.
pub own_strand_made :
    (alive : ℕ → Bool) (made wait_count callback : ℕ) (s : Stranded)
    → s.using_external_strand ≡ false
    → s.own ≡ none
    → 0 < wait_count
    → length s.scheduler.entries < s.scheduler.max_schedules
    → (timer_start alive s ≡ thrown)
      × (add_job alive made wait_count (some callback) s
            >>= (λ (s', added, id). timer_start alive s')
          ≡ ok (with_job made wait_count callback s))
unfolding with_job reserve_update timer_start add_job make_strand get_strand is_some
    add_job_interval
own_strand_made alive made wait_count callback s u o p room =
    (rw (u, o) refl, rw (u, o) (ground arith))
