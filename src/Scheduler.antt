-- ===== src/Scheduler.antt =====
-- packages/domain-core/src/scheduler-loop.ts: the scheduler's loop and the delays between its rounds.
pub mod Backoff
use webperf_selfhosted.Base.{
  ℕ, ◌+◌, ◌*◌, ◌^◌, min, max, Bool, true, false, not, ◌&&◌, ◌||◌, Option, none, some, List, [], ◌∷◌,
  ltb, leb, if◌then◌else◌, zero, suc,
}

abbrev pub max_scheduler_backoff_ms : ℕ
max_scheduler_backoff_ms = 2 * 86400000

abbrev pub minimum_scheduler_backoff_ceiling_ms : ℕ
minimum_scheduler_backoff_ceiling_ms = 15 * 60000

abbrev pub calculate_default_scheduler_max_backoff_ms : ℕ → ℕ
calculate_default_scheduler_max_backoff_ms poll_interval_ms =
    min max_scheduler_backoff_ms (max minimum_scheduler_backoff_ceiling_ms (poll_interval_ms * 2))

-- How often `reach` doubles before it is `limit`, in at most `fuel` doublings.
unfoldable pub doublings : ℕ → ℕ → ℕ → ℕ
doublings zero reach limit = 0
doublings (suc fuel) reach limit = elim (leb limit reach) [
  | true ↦ 0
  | false ↦ suc (doublings fuel (reach * 2) limit)
]

-- `Math.ceil(Math.log2(maxBackoffMs / pollIntervalMs))`: `limit` doublings are enough.
unfoldable pub maximum_exponent : ℕ → ℕ → ℕ
unfolding doublings
maximum_exponent poll_interval_ms max_backoff_ms =
    doublings max_backoff_ms poll_interval_ms max_backoff_ms

unfoldable pub calculate_scheduler_poll_delay : ℕ → ℕ → ℕ → ℕ
unfolding maximum_exponent
calculate_scheduler_poll_delay poll_interval_ms consecutive_failures max_backoff_ms =
    if ltb consecutive_failures 1
    then poll_interval_ms
    else let exponent =
        min consecutive_failures (maximum_exponent poll_interval_ms max_backoff_ms) in
      min max_backoff_ms (poll_interval_ms * 2 ^ exponent)

-- What `dispatch` does in a round of the loop.
pub data Dispatched : Type 0 where
  succeeded : (triggered_count created_job_count : ℕ) → Dispatched
  failed : Dispatched

-- A round: the signal when the round begins, the dispatch, and the signal when it is over.
pub record Round : Type 0 where
  pub aborted_before : Bool
  pub dispatch : Dispatched
  pub aborted_after : Bool

-- What the loop logs and waits for.
pub data Event : Type 0 where
  dispatch_succeeded : (triggered_count created_job_count : ℕ) → Event
  dispatch_failed : Event
  waited : (duration_ms : ℕ) → Event

abbrev pub failures_after : Dispatched → ℕ → ℕ
failures_after (succeeded triggered created) failures = 0
failures_after failed failures = suc failures

abbrev pub logged : Dispatched → Event
logged (succeeded triggered created) = dispatch_succeeded triggered created
logged failed = dispatch_failed

-- The loop of `runScheduler` over the rounds that take place.
unfoldable pub scheduler_rounds : ℕ → ℕ → ℕ → List Round → List Event
unfolding calculate_scheduler_poll_delay
scheduler_rounds poll_interval_ms max_backoff_ms failures [] = []
scheduler_rounds poll_interval_ms max_backoff_ms failures (r ∷ rs) =
    let next = failures_after r.dispatch failures in
    let rest = scheduler_rounds poll_interval_ms max_backoff_ms next rs in
    if r.aborted_before || r.aborted_after
    then []
    else logged r.dispatch
      ∷ waited (calculate_scheduler_poll_delay poll_interval_ms next max_backoff_ms)
      ∷ rest

pub data SchedulerFailure : Type 0 where
  invalid_poll_interval invalid_max_backoff : SchedulerFailure

pub data SchedulerResult : Type 0 where
  ran : List Event → SchedulerResult
  refused : SchedulerFailure → SchedulerResult

abbrev pub backoff_or : Option ℕ → ℕ → ℕ
backoff_or none poll_interval_ms = calculate_default_scheduler_max_backoff_ms poll_interval_ms
backoff_or (some ms) poll_interval_ms = ms

unfoldable pub run_scheduler : ℕ → Option ℕ → List Round → SchedulerResult
unfolding scheduler_rounds
run_scheduler poll_interval_ms max_backoff rounds =
    let max_backoff_ms = backoff_or max_backoff poll_interval_ms in
    if ltb poll_interval_ms 1 || ltb 86400000 poll_interval_ms
    then refused invalid_poll_interval
    else if leb max_backoff_ms poll_interval_ms || ltb max_scheduler_backoff_ms max_backoff_ms
    then refused invalid_max_backoff
    else ran (scheduler_rounds poll_interval_ms max_backoff_ms 0 rounds)
