-- ===== src/Time/Interval.antt =====
-- include/net/time/scheduler.h, Scheduler: every job has a timer of its own. The clock is a
-- parameter: the milliseconds that `system_clock::now()` gives at each call. A callback is a
-- number; `calls` are the callbacks called, with the elapsed milliseconds they were given.
pub mod Elapsed
use mlnsdk.Base.{
  ℕ, zero, suc, ◌+◌, ◌-◌, ◌≡◌, refl, Bool, true, false, Option, none, some, List, [], ◌∷◌, ◌++◌,
  leb, ◌==◌, if◌then◌else◌, length, to_uint64, sub_uint64,
}
use mlnsdk.Base.Outcome.{Outcome, ok, thrown, fault}

-- `Info`: `waits` counts the `async_wait`s on its timer.
pub record Info : Type 0 where
  pub id : ℕ
  pub update_time : ℕ
  pub previous : ℕ
  pub callback : ℕ
  pub waits : ℕ

pub record Scheduler : Type 0 where
  pub max_schedules : ℕ
  pub entries : List Info
  pub calls : List (ℕ × ℕ)

abbrev new_info : ℕ → ℕ → ℕ → ℕ → Info
new_info id update_time now callback = record {
  id = id;
  update_time = update_time;
  previous = now;
  callback = callback;
  waits = 1;
}

-- `AddJobInterval` at the time `now`.
unfoldable pub add_job_interval : ℕ → ℕ → Option ℕ → Scheduler → Outcome (Scheduler × Bool × ℕ)
add_job_interval now update_time none s = ok (s, false, 0)
add_job_interval now update_time (some callback) s =
    if update_time == 0
    then ok (s, false, 0)
    else if leb s.max_schedules (length s.entries)
    then thrown
    else (let index = length s.entries in
        ok (
          record s { entries = s.entries ++ new_info index update_time now callback ∷ [] },
          true,
          index,
        ))

-- The part of `UpdateHandler` that is about the entry: what it becomes, and what its callback gets.
-- `unsigned long` has 64 bits.
unfoldable pub elapse : ℕ → Info → Info × ℕ
elapse now e = (record e { previous = now; waits = e.waits + 1 }, sub_uint64 now e.previous)

unfoldable pub update_at : ℕ → ℕ → List Info → Option (List Info × ℕ × ℕ)
update_at now id [] = none
update_at now zero (e ∷ es) = let (e', t) = elapse now e in some (e' ∷ es, e.callback, t)
update_at now (suc id) (e ∷ es) = elim (update_at now id es) [
  | none ↦ none
  | some (es', c, t) ↦ some (e ∷ es', c, t)
]

-- `UpdateHandler`; an entry that was never made is a null pointer.
unfoldable pub update_handler : ℕ → ℕ → Bool → Scheduler → Outcome Scheduler
update_handler now id true s = ok s
update_handler now id false s = elim (update_at now id s.entries) [
  | none ↦ fault
  | some (es, c, t) ↦ ok (record s { entries = es; calls = s.calls ++ (c, t) ∷ [] })
]
