-- ===== src/Queue/Repeats.antt =====
-- Enqueueing a job again.
use webperf_selfhosted.Base.{ℕ, ◌≤◌, ◌≡◌, refl, Option, none, some, arith, eq_refl}
use webperf_selfhosted.Queue.Types.{
  ExecutionJobRow, ExecutionJob, EnqueueExecutionJob, Database, ok,
}
use webperf_selfhosted.Queue.Statements.{get_execution_job_row}
use webperf_selfhosted.Queue.Enqueue.{enqueue_execution, insert_or_get, new_row, available_or}
use webperf_selfhosted.Queue.Rows.{get-head}

-- What is inserted or found is found again.
insert_or_get-again :
    (job : EnqueueExecutionJob) (row row' : ExecutionJobRow) (existing : Option ExecutionJobRow)
    (db : Database) (persisted : ExecutionJob)
    → get_execution_job_row job.id db.execution_jobs ≡ existing
    → row.id ≡ job.id
    → (insert_or_get job row existing db).0 ≡ ok persisted
    → insert_or_get job row'
        (get_execution_job_row job.id (insert_or_get job row existing db).1.execution_jobs)
        (insert_or_get job row existing db).1
      ≡ (ok persisted, (insert_or_get job row existing db).1)
insert_or_get-again job row row' (some r) db persisted g i h = ground (arith, g)
insert_or_get-again job row row' none db persisted g i h =
    ground (arith, get-head job.id row db.execution_jobs (ground (arith, i, eq_refl job.id)))

-- An enqueue that returned a job may be repeated: the same request at the same or a later time
-- returns the same job and changes nothing.
pub enqueue_execution_repeats :
    (job : EnqueueExecutionJob) (now later : ℕ) (db : Database) (persisted : ExecutionJob)
    → now ≤ later
    → (enqueue_execution job now db).0 ≡ ok persisted
    → enqueue_execution job later (enqueue_execution job now db).1
      ≡ (ok persisted, (enqueue_execution job now db).1)
unfolding enqueue_execution
enqueue_execution_repeats job now later db persisted t h = ground (
  arith,
  insert_or_get-again job (new_row job (available_or job.available_at now) now)
      (new_row job (available_or job.available_at later) later)
      (get_execution_job_row job.id db.execution_jobs) db persisted refl refl,
)
