-- ===== src/Tests/Worker.antt =====
-- The executor and the scheduler, on sample courses.
use webperf_selfhosted.Base.{text_length}
use webperf_selfhosted.Base.{
  ℕ, ◌*◌, ◌^◌, ◌≤◌, min, ◌≡◌, refl, true, false, not, ◌&&◌, none, some, List, [], ◌∷◌, map, count,
  if◌then◌else◌, arith, All, codes,
}
use webperf_selfhosted.Queue.Types.{ExecutionJob, ExecutionJobStatus, ok}
use webperf_selfhosted.Queue.Schema.{
  parse_execution_job, row_fits, is_bounded_job_id, has_length, is_valid_lease_owner,
}
use webperf_selfhosted.Queue.Statements.{is_held_by, update_where, returning}
use webperf_selfhosted.Queue.Operation.{get_lease_expires_at}
use webperf_selfhosted.Queue.Lease.{update_held, renew_execution_job_lease}
use webperf_selfhosted.Executor.Options.{LoopOptions, accepted, validate_executor_loop_options}
use webperf_selfhosted.Executor.Heartbeat.{
  Renewal, renewed, refused, Beat, beat, api_error, HeartbeatState, Lease, beating, heartbeat_step,
  renew_lease_from, renew_lease_until_stopped, is_definitive_lease_renewal_error,
}
use webperf_selfhosted.Executor.Heartbeat.Deadline.{
  heartbeat_deadline_is_leased, last_expiry, Granted, renew_lease_until_stopped_deadline,
}
use webperf_selfhosted.Executor.Attempt.Failure.{other_failure}
use webperf_selfhosted.Executor.Attempt.{Course, settled, completed, started, process_execution_job}
use webperf_selfhosted.Executor.Attempt.Reports.{
  is_complete, is_fail, is_done, is_in_time, is_completion_failure, IsReported,
  process_execution_job_reports, process_execution_job_failures,
}
use webperf_selfhosted.Scheduler.{
  Round, Event, waited, dispatch_failed, dispatch_succeeded, succeeded, failed, doublings,
  maximum_exponent, calculate_scheduler_poll_delay,
}
use webperf_selfhosted.Scheduler.Backoff.{calculate_scheduler_poll_delay_doubles}
use webperf_selfhosted.Tests.Samples.{database, leased_row, request}

third_delay : calculate_scheduler_poll_delay 60000 3 900000 ≡ 480000
unfolding calculate_scheduler_poll_delay maximum_exponent doublings
third_delay = refl

capped_delay : calculate_scheduler_poll_delay 60000 9 900000 ≡ 900000
unfolding calculate_scheduler_poll_delay maximum_exponent doublings
capped_delay = refl

calculate_scheduler_poll_delay_doubles_example :
    calculate_scheduler_poll_delay 60000 9 900000 ≡ min 900000 (60000 * 2 ^ 9)
calculate_scheduler_poll_delay_doubles_example =
    calculate_scheduler_poll_delay_doubles 60000 9 900000 (omega arith) (omega arith)

abbrev rounds : List Round
rounds =
    record { aborted_before = false; dispatch = failed; aborted_after = false }
    ∷ record { aborted_before = false; dispatch = succeeded 1 2; aborted_after = false }
    ∷ record { aborted_before = true; dispatch = failed; aborted_after = true }
    ∷ []

abbrev events : List Event
events = dispatch_failed ∷ waited 120000 ∷ dispatch_succeeded 1 2 ∷ waited 60000 ∷ []

abbrev options : LoopOptions
options = record {
  lease_owner = "worker-a";
  lease_duration_ms = 30000;
  heartbeat_interval_ms = 10000;
  max_execution_ms = 600000;
  poll_interval_ms = 1000;
}

options-accepted : validate_executor_loop_options options ≡ accepted
unfolding validate_executor_loop_options text_length
options-accepted = refl

abbrev lease : Lease
lease = record { lease_owner = "worker-a"; lease_duration_ms = 30000 }

abbrev state : HeartbeatState
state = record { lease_deadline_ms = 31000; next_renewal_delay_ms = 10000 }

abbrev retried_state : HeartbeatState
retried_state = record { lease_deadline_ms = 31000; next_renewal_delay_ms = 9800 }

abbrev renewed_state : HeartbeatState
renewed_state = record { lease_deadline_ms = 33000; next_renewal_delay_ms = 10000 }

abbrev refusal : Renewal
refusal = refused 11400 (api_error (some 503))

retries : heartbeat_step lease 10000 state (beat 11000 refusal) ≡ beating retried_state
unfolding heartbeat_step is_definitive_lease_renewal_error
retries = refl

abbrev renewed_job : ExecutionJob
renewed_job = record {
  id = leased_row.id;
  kind = leased_row.kind;
  resource_id = leased_row.resource_id;
  status = leased_row.status;
  lease_owner = leased_row.lease_owner;
  lease_expires_at = some 33100;
  attempt_count = leased_row.attempt_count;
  max_attempts = leased_row.max_attempts;
  available_at = leased_row.available_at;
  payload = request.payload;
  error = none;
  created_at = leased_row.created_at;
  updated_at = 3100;
  completed_at = none;
}

renews :
    (renew_execution_job_lease "exec-2" "worker-a" 30000 3100 database).0 ≡ ok (some renewed_job)
unfolding renew_execution_job_lease get_lease_expires_at update_held update_where returning
    is_held_by parse_execution_job row_fits is_bounded_job_id has_length text_length
    is_valid_lease_owner
renews = refl

keeps_on :
    heartbeat_step lease 10000 state
      (beat 3000 (renewed 3200 renewed_job.lease_owner renewed_job.status))
    ≡ beating renewed_state
unfolding heartbeat_step
keeps_on = refl

heartbeat_deadline_is_leased_example :
    (expiry : ℕ) × (renewed_job.lease_expires_at ≡ some expiry)
    × (renewed_state.lease_deadline_ms ≤ expiry)
heartbeat_deadline_is_leased_example =
    heartbeat_deadline_is_leased lease 10000 state renewed_state "exec-2" 3000 3100 3200 database
      renewed_job (omega arith) renews keeps_on

abbrev beats : List (Beat × ℕ)
beats =
    (beat 11000 refusal, 0)
    ∷ (beat 21000 (renewed 21200 (some "worker-a") ExecutionJobStatus.running), 51100)
    ∷ []

beats-Granted : All (Granted lease) beats
beats-Granted = (tt, (omega arith, tt))

abbrev last_state : HeartbeatState
last_state = record { lease_deadline_ms = 51000; next_renewal_delay_ms = 10000 }

still_going :
    renew_lease_until_stopped lease 10000 31000 (map (λ x. x.0) beats) ≡ beating last_state
unfolding renew_lease_until_stopped renew_lease_from heartbeat_step
    is_definitive_lease_renewal_error
still_going = refl

renew_lease_until_stopped_deadline_example : last_state.lease_deadline_ms ≤ last_expiry 31050 beats
renew_lease_until_stopped_deadline_example =
    renew_lease_until_stopped_deadline lease 10000 31000 31050 last_state beats beats-Granted
      (omega arith) still_going

abbrev course : Course
course = record {
  start = started true;
  work = settled (some (other_failure (some (codes "ECONNRESET")))) none;
  completion = completed;
}

process_execution_job_reports_example :
    (count is_complete (process_execution_job course)
      ≡ (if is_in_time course.start && is_done course.work then 1 else 0))
    × (count is_fail (process_execution_job course) ≡ (
        if is_in_time course.start
          && is_done course.work
          && not (is_completion_failure course.completion)
        then 0
        else 1))
process_execution_job_reports_example = process_execution_job_reports course

process_execution_job_failures_example : All IsReported (process_execution_job course)
process_execution_job_failures_example = process_execution_job_failures course
