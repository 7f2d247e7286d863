-- ===== src/Executor/Attempt.antt =====
-- processExecutionJob of apps/executor/src/runner.ts: one attempt at a claimed job, as the calls of the
-- API that it makes. What the API, the handler and the signals do is the attempt's `Course`.
pub mod Failure
pub mod Reports
use webperf_selfhosted.Base.{
  ℕ, Bool, true, false, Option, none, some, List, [], ◌∷◌, codes, if◌then◌else◌,
}
use webperf_selfhosted.Executor.Attempt.Failure.{
  ExecutionFailure, HandlerError, execution_failure, NormalizedFailure, normalize_execution_failure,
}

-- `workController.signal.reason`
pub data AbortReason : Type 0 where
  aborted_with : ExecutionFailure → AbortReason
  aborted_otherwise : AbortReason

abbrev pub lease_lost_failure : ExecutionFailure
lease_lost_failure = record {
  code = codes "lease_lost";
  message = codes "Execution lease was lost before completion";
  retryable = true;
  retry_delay_ms = some 1000;
}

abbrev pub read_work_abort_failure : AbortReason → ExecutionFailure
read_work_abort_failure (aborted_with f) = f
read_work_abort_failure aborted_otherwise = lease_lost_failure

-- How the race of `runHandlerWithTimeout` ends: the handler settles, with or without an error and
-- with the signal as it is then, or the signal aborts before (shutdown, lost lease, time limit).
pub data Work : Type 0 where
  settled : (error : Option HandlerError) (aborted : Option AbortReason) → Work
  aborted_first : AbortReason → Work

-- What the handler's run throws, if it throws.
unfoldable pub run_handler_with_timeout : Work → Option HandlerError
run_handler_with_timeout (aborted_first r) = some (execution_failure (read_work_abort_failure r))
run_handler_with_timeout (settled none a) = none
run_handler_with_timeout (settled (some e) none) = some e
run_handler_with_timeout (settled (some e) (some r)) =
    some (execution_failure (read_work_abort_failure r))

-- `workController.signal.aborted` once the handler's run is over.
abbrev pub aborted_now : Work → Option AbortReason
aborted_now (aborted_first r) = some r
aborted_now (settled e a) = a

pub data Completion : Type 0 where
  completed : Completion
  rejected_409 : Completion
  completion_failed : HandlerError → Completion

-- `started in_time`: the API's answer, and whether the lease's deadline is still to come.
pub data Start : Type 0 where
  started : (in_time : Bool) → Start
  start_refused : Start

pub record Course : Type 0 where
  pub start : Start
  pub work : Work
  pub completion : Completion

pub data ClientCall : Type 0 where
  start complete : ClientCall
  fail : NormalizedFailure → ClientCall

abbrev pub start_failure : NormalizedFailure
start_failure = record {
  code = codes "execution_start_failed";
  message = codes "Executor could not start leased work";
  retryable = true;
  retry_delay_ms = some 1000;
}

abbrev pub report_failure : HandlerError → List ClientCall
report_failure e = fail (normalize_execution_failure e) ∷ []

abbrev pub report_completion : Completion → List ClientCall
report_completion completed = complete ∷ []
report_completion rejected_409 = complete ∷ []
report_completion (completion_failed e) = complete ∷ report_failure e

-- The `try` block and its `catch`.
abbrev pub report_work : Option HandlerError → Option AbortReason → Completion → List ClientCall
report_work (some e) a c = report_failure e
report_work none (some r) c = report_failure (execution_failure (read_work_abort_failure r))
report_work none none c = report_completion c

abbrev pub calls_after : Start → Course → List ClientCall
calls_after start_refused course = fail start_failure ∷ []
calls_after (started false) course = fail start_failure ∷ []
calls_after (started true) course =
    report_work (run_handler_with_timeout course.work) (aborted_now course.work) course.completion

unfoldable pub process_execution_job : Course → List ClientCall
unfolding run_handler_with_timeout
process_execution_job course = start ∷ calls_after course.start course
