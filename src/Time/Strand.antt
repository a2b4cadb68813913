-- ===== src/Time/Strand.antt =====
-- include/net/time/simpleScheduler.h, SimpleSchedulerES: the scheduler whose strand is its own or is
-- held by someone else (`USING_EXTERNAL_STRAND`). The jobs are those of SimpleScheduler. Strands are
-- numbers; `m_wpStrandExternal.lock()` asks which strands are `alive`, and the strand that the
-- scheduler makes for itself is the number `made`.
pub mod Gone
use mlnsdk.Base.{
  ℕ, zero, suc, ◌+◌, ◌≡◌, refl, ◌&&◌, Bool, true, false, not, Option, none, some, List, [], ◌∷◌,
  ◌++◌, ltb, ◌==◌, if◌then◌else◌, length,
}
use mlnsdk.Base.Outcome.{Outcome, ok, thrown, fault, ◌>>=◌}
use mlnsdk.Time.Simple.{Scheduler, add_job_interval, update_entries, reserve_update, timer_stop}

pub record Stranded : Type 0 where
  pub using_external_strand : Bool
  pub external : Option ℕ
  pub own : Option ℕ
  pub scheduler : Scheduler

-- `Init()` and `Init(spStrand)`.
unfoldable pub init : Stranded → Outcome Stranded
init s = if s.using_external_strand then thrown else ok s

unfoldable pub init_external : Option ℕ → Stranded → Outcome Stranded
init_external strand s =
    if s.using_external_strand then ok (record s { external = strand }) else thrown

-- `std::weak_ptr::lock`.
unfoldable pub lock : (ℕ → Bool) → Option ℕ → Option ℕ
lock alive none = none
lock alive (some strand) = if alive strand then some strand else none

unfoldable pub get_strand : (ℕ → Bool) → Stranded → Option ℕ
get_strand alive s = if s.using_external_strand then lock alive s.external else s.own

unfoldable pub is_some : {V : Type 0} → Option V → Bool
is_some none = false
is_some (some v) = true

unfoldable pub timer_start : (ℕ → Bool) → Stranded → Outcome Stranded
unfolding reserve_update
timer_start alive s =
    if is_some (get_strand alive s)
    then ok (record s { scheduler = reserve_update (record s.scheduler { processing = true }) })
    else thrown

-- `TimerStop`
unfoldable pub stop_timer : Stranded → Stranded
stop_timer s = record s { scheduler = timer_stop s.scheduler }

-- The strand that `AddJobInterval` makes when the scheduler uses its own and has none.
unfoldable pub make_strand : ℕ → Stranded → Stranded
make_strand made s =
    if not s.using_external_strand && not (is_some s.own) then record s { own = some made } else s

-- `AddJobInterval`.
unfoldable pub add_job : (ℕ → Bool) → ℕ → ℕ → Option ℕ → Stranded → Outcome (Stranded × Bool × ℕ)
add_job alive made wait_count none s = ok (s, false, 0)
add_job alive made wait_count (some callback) s =
    if wait_count == 0
    then ok (s, false, 0)
    else (let s' = make_strand made s in
        if is_some (get_strand alive s')
        then (add_job_interval wait_count (some callback) s'.scheduler
            >>= (λ (scheduler, added, id). ok (record s' { scheduler = scheduler }, added, id)))
        else thrown)

-- `UpdateHandler`: the jobs run unless the external strand is gone, and the timer waits again only
-- on a strand.
unfoldable pub update_handler : (ℕ → Bool) → Bool → Stranded → Stranded
unfolding reserve_update
update_handler alive error s =
    if s.using_external_strand && not (is_some (lock alive s.external))
    then s
    else if not error && s.scheduler.processing
    then (let (es, called) = update_entries s.scheduler.increment s.scheduler.entries in
        let ran = record s.scheduler { entries = es; calls = s.scheduler.calls ++ called } in
        record s { scheduler = if is_some (get_strand alive s) then reserve_update ran else ran })
    else s
