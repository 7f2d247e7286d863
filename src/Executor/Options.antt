-- ===== src/Executor/Options.antt =====
-- validateExecutorLoopOptions of apps/executor/src/runner.ts.
use webperf_selfhosted.Base.{
  ℕ, ◌+◌, ◌*◌, ◌≤◌, ◌≡◌, String, ◌||◌, ltb, if◌then◌else◌, text_length, arith,
}
use webperf_selfhosted.Queue.Types.{ok}
use webperf_selfhosted.Queue.Schema.{is_valid_lease_owner, has_length}
use webperf_selfhosted.Queue.Operation.{get_lease_expires_at}

pub record LoopOptions : Type 0 where
  pub lease_owner : String
  pub lease_duration_ms : ℕ
  pub heartbeat_interval_ms : ℕ
  pub max_execution_ms : ℕ
  pub poll_interval_ms : ℕ

pub data OptionsResult : Type 0 where
  accepted bad_owner bad_duration bad_heartbeat bad_poll bad_max : OptionsResult

unfoldable pub validate_executor_loop_options : LoopOptions → OptionsResult
validate_executor_loop_options o =
    if ltb (text_length o.lease_owner) 1 || ltb 160 (text_length o.lease_owner)
    then bad_owner
    else if ltb o.lease_duration_ms 1000 || ltb 3600000 o.lease_duration_ms
    then bad_duration
    else if ltb o.heartbeat_interval_ms 1 || ltb o.lease_duration_ms (o.heartbeat_interval_ms * 3)
    then bad_heartbeat
    else if ltb o.poll_interval_ms 1 || ltb 60000 o.poll_interval_ms
    then bad_poll
    else if ltb o.max_execution_ms 1000 || ltb 86400000 o.max_execution_ms
    then bad_max
    else accepted

-- The queue grants the lease that accepted options ask for: its owner and duration pass the API's
-- checks at any time, and the heartbeats come at least three times in it.
pub validate_executor_loop_options_lease :
    (o : LoopOptions) (now : ℕ)
    → validate_executor_loop_options o ≡ accepted
    → (get_lease_expires_at o.lease_owner o.lease_duration_ms now ≡ ok (now + o.lease_duration_ms))
      × (1 ≤ o.heartbeat_interval_ms)
      × (o.heartbeat_interval_ms * 3 ≤ o.lease_duration_ms)
unfolding validate_executor_loop_options get_lease_expires_at is_valid_lease_owner has_length
validate_executor_loop_options_lease o now h = ground arith
