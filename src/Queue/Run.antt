-- ===== src/Queue/Run.antt =====
-- Every operation on the queue as data, and runs of them: what any sequence of API calls does.
use webperf_selfhosted.Base.{ℕ, String, Option, List, []}
use webperf_selfhosted.Queue.Types.{
  ExecutionJobKind, ExecutionJobError, EnqueueExecutionJob, Database, ResourceResult,
}
use webperf_selfhosted.Queue.Enqueue.{
  enqueue_execution, enqueue_execution_jobs, create_execution_resource,
  save_execution_resource_result,
}
use webperf_selfhosted.Queue.Lease.{
  claim_execution_job, mark_execution_job_running, renew_execution_job_lease,
  complete_execution_job, fail_execution_job, cancel_execution_job,
}

-- The methods of the repository that change the queue, with their arguments.
pub data Call : Type 0 where
  enqueue : EnqueueExecutionJob → Call
  enqueue_followups : String → String → List EnqueueExecutionJob → Call
  create_resource : EnqueueExecutionJob → ResourceResult → Call
  save_result : String → String → ResourceResult → Call
  claim : String → ℕ → Option ExecutionJobKind → Call
  start : String → String → ℕ → Call
  renew : String → String → ℕ → Call
  complete : String → String → Call
  fail : String → String → ExecutionJobError → Option ℕ → Call
  cancel : String → Call

-- The database after a call at time `now`, whether it returns or throws.
unfoldable pub step : Call → ℕ → Database → Database
step (enqueue job) now db = (enqueue_execution job now db).1
step (enqueue_followups id owner jobs) now db = (enqueue_execution_jobs id owner jobs now db).1
step (create_resource job result) now db = (create_execution_resource job result now db).1
step (save_result id owner result) now db =
    (save_execution_resource_result id owner result now db).1
step (claim owner duration kind) now db = (claim_execution_job owner duration kind now db).1
step (start id owner duration) now db = (mark_execution_job_running id owner duration now db).1
step (renew id owner duration) now db = (renew_execution_job_lease id owner duration now db).1
step (complete id owner) now db = (complete_execution_job id owner now db).1
step (fail id owner error delay) now db = (fail_execution_job id owner error delay now db).1
step (cancel id) now db = (cancel_execution_job id now db).1

abbrev pub empty_database : Database
empty_database = record { execution_jobs = []; jobs = []; runs = []; audits = [] }

-- A database that some calls, at any times, lead to.
pub data Reachable : Database → Type 0 where
  start_empty : Reachable empty_database
  after : {db : Database} (call : Call) (now : ℕ) → Reachable db → Reachable (step call now db)
