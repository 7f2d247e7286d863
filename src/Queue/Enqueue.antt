-- ===== src/Queue/Enqueue.antt =====
-- apps/api/src/repository.ts: the operations that enqueue executions and save their results. A
-- transaction that throws leaves the database as it was.
use webperf_selfhosted.Base.{
  ℕ, ◌-◌, String, Bool, true, false, not, ◌&&◌, Option, none, some, List, [], ◌∷◌, ltb,
  if◌then◌else◌, ◌=ₛ◌,
}
use webperf_selfhosted.Queue.Types.{
  ExecutionJobStatus, ExecutionJobRow, ExecutionJob, EnqueueExecutionJob, sealed, Database,
  ResourceResult, Result, ok, thrown, invalid_job, availability_too_far, not_decodable, id_taken,
  kind_mismatch,
}
use webperf_selfhosted.Queue.Schema.{
  execution_availability_max_delay_ms, is_valid_enqueue, max_attempts_or_default,
  parse_execution_job,
}
use webperf_selfhosted.Queue.Statements.{same_kind, lease_live, owner_is, get_execution_job_row}
use webperf_selfhosted.Queue.Sync.{persist_execution_resource, result_kind}
use webperf_selfhosted.Queue.Operation.{Operation, with_value, put_rows, get_execution_job}

-- `enqueueExecutionJobStatement`: nothing is inserted where the id is there already.
abbrev pub new_row : EnqueueExecutionJob → ℕ → ℕ → ExecutionJobRow
new_row job available_at now = record {
  id = job.id;
  kind = job.kind;
  resource_id = job.resource_id;
  status = ExecutionJobStatus.queued;
  lease_owner = none;
  lease_expires_at = none;
  attempt_count = 0;
  max_attempts = max_attempts_or_default job.max_attempts;
  available_at = available_at;
  payload_json = sealed job.payload;
  error_json = none;
  created_at = now;
  started_at = none;
  updated_at = now;
  completed_at = none;
}

abbrev pub available_or : Option ℕ → ℕ → ℕ
available_or none now = now
available_or (some t) now = t

abbrev pub checked_job : EnqueueExecutionJob → Option ExecutionJob → Result ExecutionJob
checked_job job none = thrown not_decodable
checked_job job (some persisted) =
    if same_kind persisted.kind job.kind && persisted.resource_id =ₛ job.resource_id
    then ok persisted
    else thrown id_taken

abbrev pub insert_or_get :
    EnqueueExecutionJob → ExecutionJobRow → Option ExecutionJobRow → Operation ExecutionJob
insert_or_get job row (some existing) db = (checked_job job (parse_execution_job existing), db)
insert_or_get job row none db =
    (checked_job job (parse_execution_job row), put_rows (row ∷ db.execution_jobs) db)

unfoldable pub enqueue_execution : EnqueueExecutionJob → ℕ → Operation ExecutionJob
enqueue_execution job now db =
    if not (is_valid_enqueue job)
    then (thrown invalid_job, db)
    else if ltb execution_availability_max_delay_ms (available_or job.available_at now - now)
    then (thrown availability_too_far, db)
    else insert_or_get job (new_row job (available_or job.available_at now) now)
        (get_execution_job_row job.id db.execution_jobs) db

abbrev pub is_running : ExecutionJobStatus → Bool
is_running ExecutionJobStatus.running = true
is_running _ = false

abbrev pub owns_running : Option ExecutionJob → String → ℕ → Bool
owns_running none owner now = false
owns_running (some j) owner now =
    is_running j.status && owner_is j.lease_owner owner && lease_live j.lease_expires_at now

unfoldable pub owns_running_execution_lease : String → String → ℕ → Database → Bool
unfolding get_execution_job
owns_running_execution_lease id owner now db = owns_running (get_execution_job id db) owner now

abbrev pub enqueue_all : List EnqueueExecutionJob → ℕ → Operation (List ExecutionJob)
enqueue_all [] now db = (ok [], db)
enqueue_all (j ∷ js) now db =
    let (r, db') = enqueue_execution j now db in
    with_value r
      (λ job db₁.
        let (rest, db₂) = enqueue_all js now db₁ in
        with_value rest (λ jobs db₃. (ok (job ∷ jobs), db₃)) db₂)
      db'

-- `db.transaction`: what throws is rolled back.
abbrev pub roll_back : {A : Type 0} → Database → Result A × Database → Result A × Database
roll_back before (thrown e, after) = (thrown e, before)
roll_back before (ok a, after) = (ok a, after)

unfoldable pub enqueue_execution_jobs :
    String → String → List EnqueueExecutionJob → ℕ → Operation (Option (List ExecutionJob))
unfolding owns_running_execution_lease enqueue_execution
enqueue_execution_jobs id owner jobs now db =
    if not (owns_running_execution_lease id owner now db)
    then (ok none, db)
    else roll_back db
        (let (r, db') = enqueue_all jobs now db in with_value r (λ js db₂. (ok (some js), db₂)) db')

unfoldable pub create_execution_resource :
    EnqueueExecutionJob → ResourceResult → ℕ → Operation ExecutionJob
unfolding persist_execution_resource enqueue_execution
create_execution_resource job result now db =
    if not (same_kind job.kind (result_kind result))
    then (thrown kind_mismatch, db)
    else roll_back db (
        with_value (persist_execution_resource result db) (λ db' _. enqueue_execution job now db')
          db)

unfoldable pub save_execution_resource_result :
    String → String → ResourceResult → ℕ → Operation Bool
unfolding owns_running_execution_lease persist_execution_resource
save_execution_resource_result id owner result now db =
    if not (owns_running_execution_lease id owner now db)
    then (ok false, db)
    else with_value (persist_execution_resource result db) (λ db' _. (ok true, db')) db
