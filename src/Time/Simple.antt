-- ===== src/Time/Simple.antt =====
-- include/net/time/simpleScheduler.h, SimpleScheduler: one timer of a fixed increment counts every
-- job down. The array of `MAX_SCHEDULES` entries is a list of the entries in use. A callback is a
-- number; `calls` are the callbacks that were called, in order, and `timers` counts the waits.
pub mod Firing
use mlnsdk.Base.{
  ℕ, ◌+◌, ◌*◌, ◌||◌, ◌&&◌, Bool, true, false, not, Option, none, some, List, [], ◌∷◌, ◌++◌, ltb,
  ◌==◌, if◌then◌else◌, length, to_uint64, sub_uint64, negative_int64,
}
use mlnsdk.Base.Outcome.{Outcome, ok, thrown, fault, ◌>>=◌}

-- `SchedulerInfo`: `interval` is `uint64_t`, `remain` the pattern of an `int64_t`.
pub record Entry : Type 0 where
  pub id : ℕ
  pub interval : ℕ
  pub remain : ℕ
  pub callback : ℕ

pub record Scheduler : Type 0 where
  pub max_schedules : ℕ
  pub increment : ℕ
  pub processing : Bool
  pub entries : List Entry
  pub calls : List ℕ
  pub timers : ℕ

unfoldable pub new_scheduler : ℕ → ℕ → Scheduler
new_scheduler max_schedules increment = record {
  max_schedules = max_schedules;
  increment = increment;
  processing = false;
  entries = [];
  calls = [];
  timers = 0;
}

unfoldable pub reserve_update : Scheduler → Scheduler
reserve_update s = record s { timers = s.timers + 1 }

unfoldable pub timer_start : Scheduler → Scheduler
unfolding reserve_update
timer_start s = reserve_update (record s { processing = true })

unfoldable pub timer_stop : Scheduler → Scheduler
timer_stop s = record s { processing = false }

-- The entry that `AddJobInterval` makes.
abbrev pub new_entry : ℕ → ℕ → ℕ → ℕ → Entry
new_entry id increment wait_count callback = record {
  id = id;
  interval = to_uint64 (wait_count * increment);
  remain = to_uint64 (wait_count * increment);
  callback = callback;
}

-- `AddJobInterval`: there is no test that the array has an entry left.
unfoldable pub add_job_interval : ℕ → Option ℕ → Scheduler → Outcome (Scheduler × Bool × ℕ)
add_job_interval wait_count none s = ok (s, false, 0)
add_job_interval wait_count (some callback) s =
    if wait_count == 0
    then ok (s, false, 0)
    else (let index = length s.entries in
        if ltb index s.max_schedules
        then ok (
          record s { entries = s.entries ++ new_entry index s.increment wait_count callback ∷ [] },
          true,
          index,
        )
        else fault)

-- The body of the loop: one entry, and whether its callback is called.
unfoldable pub update_entry : ℕ → Entry → Entry × Bool
update_entry increment e =
    let remain = sub_uint64 e.remain increment in
    if negative_int64 remain || (remain == 0)
    then (record e { remain = e.interval }, true)
    else (record e { remain = remain }, false)

unfoldable pub update_entries : ℕ → List Entry → List Entry × List ℕ
update_entries increment [] = ([], [])
update_entries increment (e ∷ es) =
    let (e', due) = update_entry increment e in
    let (es', called) = update_entries increment es in
    (e' ∷ es', if due then e.callback ∷ called else called)

-- `UpdateHandler`, given whether the timer reports an error.
unfoldable pub update_handler : Bool → Scheduler → Scheduler
unfolding reserve_update
update_handler error s =
    if not error && s.processing
    then (let (es, called) = update_entries s.increment s.entries in
        reserve_update (record s { entries = es; calls = s.calls ++ called }))
    else s
