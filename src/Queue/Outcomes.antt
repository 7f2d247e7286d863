-- ===== src/Queue/Outcomes.antt =====
-- What the holder of a lease does to the job: it completes, fails for good, or is queued again.
use webperf_selfhosted.Base.{
  ℕ, ◌+◌, String, ◌≡◌, refl, sym, ◌∙◌, ap, true, not, ◌||◌, Option, none, some, arith,
  if◌then◌else◌, Option-cases, inl, inr, leb,
}
use webperf_selfhosted.Queue.Types.{
  ExecutionJobRow, ExecutionJobStatus, ExecutionJobError, ExecutionJob, Database, ok,
}
use webperf_selfhosted.Queue.Schema.{is_leased, is_valid_lease_owner, parse_execution_job}
use webperf_selfhosted.Queue.Statements.{
  has_id, lease_live, owner_is, is_held_by, get_execution_job_row, set_failed, set_completed,
}
use webperf_selfhosted.Queue.Operation.{get_execution_job, parsed}
use webperf_selfhosted.Queue.Lease.{update_held, complete_job, complete_execution_job, is_succeeded}
use webperf_selfhosted.Queue.Rows.{get-update_where}
use webperf_selfhosted.Queue.Decoding.{
  Mirrors, parse_execution_job-Mirrors, get-has_id, returning-get, held-has_id,
}

-- The row of the id after a held update.
update_held-get :
    (id owner : String) (now : ℕ) (set : ExecutionJobRow → ExecutionJobRow) (r : ExecutionJobRow)
    (db : Database)
    → ((x : ExecutionJobRow) → (set x).id ≡ x.id)
    → get_execution_job_row id db.execution_jobs ≡ some r
    → is_held_by id owner now r ≡ true
    → get_execution_job_row id (update_held id owner now set db).1.execution_jobs ≡ some (set r)
unfolding update_held
update_held-get id owner now set r db k g h =
    get-update_where (is_held_by id owner now) set k id r db.execution_jobs g ∙ rw h refl

-- The failed row: ended if the error is not retryable or no attempt is left, else queued again.
abbrev pub failed_row : ExecutionJobError → ℕ → ℕ → ExecutionJobRow → ExecutionJobRow
failed_row error delay now r =
    if not error.retryable || leb r.max_attempts r.attempt_count
    then set_failed ExecutionJobStatus.failed r.available_at error (some now) now r
    else set_failed ExecutionJobStatus.queued (now + delay) error none now r

held-parts :
    (id owner : String) (now : ℕ) (r : ExecutionJobRow) (job : ExecutionJob)
    → Mirrors r job
    → is_held_by id owner now r ≡ true
    → (owner_is job.lease_owner owner ≡ true)
      × (lease_live job.lease_expires_at now ≡ true)
      × (is_leased job.status ≡ true)
unfolding is_held_by
held-parts id owner now r job m h = ground (arith, m.same_status, m.same_owner, m.same_expiry)

held-from :
    (id owner : String) (now : ℕ) (r : ExecutionJobRow) (job : ExecutionJob)
    → Mirrors r job
    → has_id id r ≡ true
    → owner_is job.lease_owner owner ≡ true
    → lease_live job.lease_expires_at now ≡ true
    → is_leased job.status ≡ true
    → is_held_by id owner now r ≡ true
unfolding is_held_by
held-from id owner now r job m h a b c = ground (arith, m.same_status, m.same_owner, m.same_expiry)

complete_job-get :
    (id owner : String) (now : ℕ) (db : Database) (r : ExecutionJobRow) (job : ExecutionJob)
    → get_execution_job_row id db.execution_jobs ≡ some r
    → Mirrors r job
    → is_held_by id owner now r ≡ true
    → get_execution_job_row id (complete_job (some job) id owner now db).1.execution_jobs
      ≡ some (set_completed now r)
complete_job-get id owner now db r job g m h =
    let (a, b, c) = held-parts id owner now r job m h in
    ground (arith, a, b, c, update_held-get id owner now (set_completed now) r db (λ x. refl) g h)

-- The row that a job was read from.
read_row :
    (id : String) (db : Database) (job : ExecutionJob)
    → get_execution_job id db ≡ some job
    → (r : ExecutionJobRow) × (get_execution_job_row id db.execution_jobs ≡ some r)
      × (parse_execution_job r ≡ some job)
unfolding get_execution_job
read_row id db job h = elim (Option-cases (get_execution_job_row id db.execution_jobs)) [
  | inl n ↦ absurd (ground (arith, h, n))
  | inr (r, g) ↦ (r, g, ground (arith, h, g))
]

-- What a completion by the lease's holder returns is what is read after it.
completed_held :
    (id owner : String) (now : ℕ) (db : Database) (r : ExecutionJobRow) (job : ExecutionJob)
    → get_execution_job_row id db.execution_jobs ≡ some r
    → is_held_by id owner now r ≡ true
    → (update_held id owner now (set_completed now) db).0 ≡ some job
    → (is_succeeded job.status ≡ true)
      × (get_execution_job id (update_held id owner now (set_completed now) db).1 ≡ some job)
unfolding get_execution_job update_held
completed_held id owner now db r job g h e =
    let returned =
      returning-get (is_held_by id owner now) (set_completed now) id (held-has_id id owner now) r
        db.execution_jobs g h in
    let after = update_held-get id owner now (set_completed now) r db (λ x. refl) g h in
    let read : parse_execution_job (set_completed now r) ≡ some job =
      sym (ap parsed returned) ∙ e in
    let status = (parse_execution_job-Mirrors (set_completed now r) job read).same_status in
    (rw status refl, ap parsed after ∙ read)

complete_job-some :
    (id owner : String) (now : ℕ) (db : Database) (before : Option ExecutionJob)
    (job : ExecutionJob)
    → get_execution_job id db ≡ before
    → (complete_job before id owner now db).0 ≡ some job
    → (is_succeeded job.status ≡ true)
      × (get_execution_job id (complete_job before id owner now db).1 ≡ some job)
complete_job-some id owner now db none job g h = absurd (cc)
complete_job-some id owner now db (some old) job g h =
    let (r, got, read) = read_row id db old g in
    let m = parse_execution_job-Mirrors r old read in
    let held = held-from id owner now r old m (get-has_id id r db.execution_jobs got) in
    let after = completed_held id owner now db r job got in ground (arith, g, held, after)

completed_job :
    (id owner : String) (now : ℕ) (db : Database) (job : ExecutionJob)
    → (complete_execution_job id owner now db).0 ≡ ok (some job)
    → (is_succeeded job.status ≡ true)
      × (get_execution_job id (complete_execution_job id owner now db).1 ≡ some job)
unfolding complete_execution_job
completed_job id owner now db job h =
    ground (arith, complete_job-some id owner now db (get_execution_job id db) job refl)

-- A completion that returned a job may be repeated: with any valid owner, at any time, it returns
-- the same job, which has succeeded, and changes nothing.
pub complete_execution_job_repeats :
    (id owner other : String) (now later : ℕ) (db : Database) (job : ExecutionJob)
    → is_valid_lease_owner other ≡ true
    → (complete_execution_job id owner now db).0 ≡ ok (some job)
    → complete_execution_job id other later (complete_execution_job id owner now db).1
      ≡ (ok (some job), (complete_execution_job id owner now db).1)
unfolding complete_execution_job
complete_execution_job_repeats id owner other now later db job v h =
    let (done, found) = completed_job id owner now db job h in ground (arith, done, found)
