-- ===== src/Queue/Transition/Calls.antt =====
-- The operations of the lease's owner move the rows along the steps.
use webperf_selfhosted.Queue.Schema.{is_valid_error, execution_retry_delay_max_ms}
use webperf_selfhosted.Queue.Lease.{is_succeeded}
use webperf_selfhosted.Base.{
  ℕ, ◌+◌, ◌<◌, String, ◌≡◌, refl, Bool, true, false, ◌&&◌, ◌||◌, not, Option, none, some, arith,
  ltb, if◌then◌else◌,
}
use webperf_selfhosted.Queue.Types.{
  ExecutionJobRow, ExecutionJobStatus, ExecutionJobError, ExecutionJob, Database, ok,
}
use webperf_selfhosted.Queue.Schema.{is_leased, is_terminal, is_valid_lease_owner}
use webperf_selfhosted.Queue.Statements.{
  lease_live, owner_is, set_running, set_renewed, set_completed, set_failed,
}
use webperf_selfhosted.Queue.Sync.Laws.{rows-sync}
use webperf_selfhosted.Queue.Operation.{get_lease_expires_at, get_execution_job}
use webperf_selfhosted.Queue.Lease.{
  update_held, mark_execution_job_running, renew_execution_job_lease, complete_job,
  complete_execution_job, sync_if, ends_job, set_failure, fail_job, fail_execution_job,
  delay_or_default, is_failed, or_now,
}
use webperf_selfhosted.Queue.Transition.{RowStep, run, renew, complete, give_up, retry}
use webperf_selfhosted.Queue.Transition.Updates.{update_where-Evolves, everywhere, held_row}
use webperf_selfhosted.Queue.Transition.Moves.{
  Moves, still, Moves-same, Moves-update, Moves-trans, Moves-if, Moves-with,
}

-- The lease that an operation takes ends after `now`, and its owner is valid.
pub lease_bounds :
    (owner : String) (duration now : ℕ) {t : ℕ}
    → get_lease_expires_at owner duration now ≡ ok t
    → (is_valid_lease_owner owner ≡ true) × (now < t)
unfolding get_lease_expires_at
lease_bounds owner duration now h = ground arith

module _ (now : ℕ) (id owner : String) where
  held_update :
      (set : ExecutionJobRow → ExecutionJobRow)
      → ((r : ExecutionJobRow)
          → is_leased r.status ≡ true
          → lease_live r.lease_expires_at now ≡ true
          → RowStep now r (set r))
      → (db : Database) → Moves now db (update_held id owner now set db).1
  unfolding update_held
  held_update set h db = Moves-update (
      update_where-Evolves now _ set db.execution_jobs
        (everywhere (λ r k. let f = held_row id owner now r k in h r f.2 f.3) db.execution_jobs))

  pub start-Moves :
      (duration : ℕ) (db : Database)
      → Moves now db (mark_execution_job_running id owner duration now db).1
  unfolding mark_execution_job_running
  start-Moves duration db = Moves-with (get_lease_expires_at owner duration now) _ db still λ t e.
      held_update (set_running t now) (λ r a b. run r t (lease_bounds owner duration now e).1 a b)
        db

  pub renew-Moves :
      (duration : ℕ) (db : Database)
      → Moves now db (renew_execution_job_lease id owner duration now db).1
  unfolding renew_execution_job_lease
  renew-Moves duration db = Moves-with (get_lease_expires_at owner duration now) _ db still λ t e.
      held_update (set_renewed t now) (λ r a b. renew r t (lease_bounds owner duration now e).1 a b)
        db

  complete_job-Moves :
      (job : Option ExecutionJob) (db : Database)
      → Moves now db (complete_job job id owner now db).1
  complete_job-Moves none db = still
  complete_job-Moves (some job) db =
      Moves-if (is_succeeded job.status) _ _ (λ _. still)
        λ _.
          Moves-if
            (is_leased job.status
              && owner_is job.lease_owner owner
              && lease_live job.lease_expires_at now)
            _ _ (λ _. held_update (set_completed now) (λ r a b. complete r a b) db) (λ _. still)

  pub complete-Moves : (db : Database) → Moves now db (complete_execution_job id owner now db).1
  unfolding complete_execution_job
  complete-Moves db =
      Moves-if (not (is_valid_lease_owner owner)) _ _ (λ _. still)
        (λ _. complete_job-Moves (get_execution_job id db) db)

  sync_if-Moves :
      (p : ExecutionJobStatus → Bool) (job : Option ExecutionJob) (at : ℕ) (db : Database)
      → (sync_if p job at db).execution_jobs ≡ db.execution_jobs
  sync_if-Moves p none at db = refl
  sync_if-Moves p (some job) at db = ground (arith, rows-sync job at db)

  set_failure-step :
      (error : ExecutionJobError) (delay : ℕ) (job : ExecutionJob) (r : ExecutionJobRow)
      → is_leased r.status ≡ true
      → lease_live r.lease_expires_at now ≡ true
      → RowStep now r (set_failure error delay now job r)
  set_failure-step error delay job r a b = one (ends_job error job)
    where
      one :
          (e : Bool)
          → RowStep now r (
              (if e
                  then set_failed ExecutionJobStatus.failed job.available_at error (some now) now
                  else set_failed ExecutionJobStatus.queued (now + delay) error none now)
                r)
      one true = give_up r job.available_at error a b
      one false = retry r (now + delay) error (omega arith) a b

  fail_job-Moves :
      (job : Option ExecutionJob) (error : ExecutionJobError) (delay : ℕ) (db : Database)
      → Moves now db (fail_job job id owner error delay now db).1
  fail_job-Moves none error delay db = still
  fail_job-Moves (some job) error delay db =
      Moves-if (is_terminal job.status) _ _
        (λ _. Moves-same (sync_if-Moves is_failed (some job) (or_now job.completed_at now) db))
        λ _.
          Moves-if
            (not (owner_is job.lease_owner owner) || not (lease_live job.lease_expires_at now)) _ _
            (λ _. still)
            λ _.
              let u = update_held id owner now (set_failure error delay now job) db in
              Moves-trans (held_update _ (set_failure-step error delay job) db)
                (Moves-same (sync_if-Moves is_failed u.0 now u.1))

  pub fail-Moves :
      (error : ExecutionJobError) (delay : Option ℕ) (db : Database)
      → Moves now db (fail_execution_job id owner error delay now db).1
  unfolding fail_execution_job
  fail-Moves error delay db =
      Moves-if (not (is_valid_lease_owner owner)) _ _ (λ _. still)
        λ _.
          Moves-if (not (is_valid_error error)) _ _ (λ _. still)
            λ _.
              Moves-if (ltb execution_retry_delay_max_ms (delay_or_default delay)) _ _ (λ _. still)
                λ _. fail_job-Moves (get_execution_job id db) error (delay_or_default delay) db
