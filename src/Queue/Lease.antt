-- ===== src/Queue/Lease.antt =====
-- apps/api/src/repository.ts: the operations on the lease of an execution: claim, start, renew,
-- complete, fail and cancel.
use webperf_selfhosted.Base.{
  ℕ, ◌+◌, String, Bool, true, false, not, ◌&&◌, ◌||◌, Option, none, some, List, [], ◌∷◌, ltb, leb,
  if◌then◌else◌,
}
use webperf_selfhosted.Queue.Types.{
  ExecutionJobKind, ExecutionJobStatus, ExecutionJobError, ExecutionJobRow, ExecutionJob, Database,
  ok, thrown, invalid_lease_owner, invalid_retry_delay, invalid_error,
}
use webperf_selfhosted.Queue.Schema.{
  default_execution_retry_delay_ms, execution_retry_delay_max_ms, is_valid_lease_owner,
  is_valid_error, is_leased, is_terminal, parse_execution_job,
}
use webperf_selfhosted.Queue.Statements.{
  lease_live, owner_is, is_claimable, is_exhausted, is_held_by, update_where, returning, first,
  select_ids, set_leased, set_running, set_renewed, set_completed, set_failed, set_cancelled,
  set_exhausted, in_selection, is_cancellable, execution_exhaustion_finalization_batch_size,
}
use webperf_selfhosted.Queue.Sync.{sync_terminal_execution_resource, is_cancelled}
use webperf_selfhosted.Queue.Operation.{
  Operation, get_lease_expires_at, with_value, parsed, put_rows, get_execution_job,
}

abbrev pub exhausted_error : ExecutionJobError
exhausted_error = record {
  code = "lease_attempts_exhausted";
  message = "Execution stopped after the maximum number of lease attempts";
  retryable = false;
}

abbrev pub sync_parsed : Option ExecutionJob → ℕ → Database → Database
sync_parsed none now db = db
sync_parsed (some job) now db = sync_terminal_execution_resource job now db

unfoldable pub sync_rows : List ExecutionJobRow → ℕ → Database → Database
sync_rows [] now db = db
sync_rows (r ∷ rs) now db = sync_rows rs now (sync_parsed (parse_execution_job r) now db)

-- The first step of a claim: jobs that are due with no attempt left fail, 50 at most.
unfoldable pub finalize_exhausted : Option ExecutionJobKind → ℕ → Database → Database
unfolding sync_rows
finalize_exhausted kind now db =
    let ids =
      select_ids (is_exhausted kind now) execution_exhaustion_finalization_batch_size
        db.execution_jobs in
    let set = set_exhausted exhausted_error now in
    sync_rows (returning (in_selection ids) set db.execution_jobs) now
      (put_rows (update_where (in_selection ids) set db.execution_jobs) db)

-- The second step: the claim itself.
unfoldable pub claim_first :
    String → ℕ → Option ExecutionJobKind → ℕ → Database → Option ExecutionJob × Database
claim_first owner expires_at kind now db =
    let ids = select_ids (is_claimable kind now) 1 db.execution_jobs in
    let set = set_leased owner expires_at now in
    (
      parsed (first (returning (in_selection ids) set db.execution_jobs)),
      put_rows (update_where (in_selection ids) set db.execution_jobs) db,
    )

unfoldable pub claim_execution_job :
    String → ℕ → Option ExecutionJobKind → ℕ → Operation (Option ExecutionJob)
unfolding get_lease_expires_at finalize_exhausted claim_first
claim_execution_job owner duration kind now =
    with_value (get_lease_expires_at owner duration now) λ expires_at db.
      let (job, db') = claim_first owner expires_at kind now (finalize_exhausted kind now db) in
      (ok job, db')

-- `UPDATE … WHERE id = ? AND …` with `RETURNING *`.
unfoldable pub update_held :
    String
    → String
    → ℕ
    → (ExecutionJobRow → ExecutionJobRow)
    → Database
    → Option ExecutionJob × Database
update_held id owner now set db = (
  parsed (first (returning (is_held_by id owner now) set db.execution_jobs)),
  put_rows (update_where (is_held_by id owner now) set db.execution_jobs) db,
)

unfoldable pub mark_execution_job_running :
    String → String → ℕ → ℕ → Operation (Option ExecutionJob)
unfolding get_lease_expires_at update_held
mark_execution_job_running id owner duration now =
    with_value (get_lease_expires_at owner duration now) λ expires_at db.
      let (job, db') = update_held id owner now (set_running expires_at now) db in (ok job, db')

unfoldable pub renew_execution_job_lease : String → String → ℕ → ℕ → Operation (Option ExecutionJob)
unfolding get_lease_expires_at update_held
renew_execution_job_lease id owner duration now =
    with_value (get_lease_expires_at owner duration now) λ expires_at db.
      let (job, db') = update_held id owner now (set_renewed expires_at now) db in (ok job, db')

abbrev pub is_succeeded : ExecutionJobStatus → Bool
is_succeeded ExecutionJobStatus.succeeded = true
is_succeeded _ = false

abbrev pub complete_job :
    Option ExecutionJob → String → String → ℕ → Database → Option ExecutionJob × Database
complete_job none id owner now db = (none, db)
complete_job (some job) id owner now db =
    if is_succeeded job.status
    then (some job, db)
    else if is_leased job.status
        && owner_is job.lease_owner owner
        && lease_live job.lease_expires_at now
    then update_held id owner now (set_completed now) db
    else (none, db)

unfoldable pub complete_execution_job : String → String → ℕ → Operation (Option ExecutionJob)
unfolding get_execution_job update_held
complete_execution_job id owner now db =
    if not (is_valid_lease_owner owner)
    then (thrown invalid_lease_owner, db)
    else let (job, db') = complete_job (get_execution_job id db) id owner now db in (ok job, db')

abbrev pub is_failed : ExecutionJobStatus → Bool
is_failed ExecutionJobStatus.failed = true
is_failed _ = false

abbrev pub or_now : Option ℕ → ℕ → ℕ
or_now none now = now
or_now (some t) now = t

abbrev pub sync_if : (ExecutionJobStatus → Bool) → Option ExecutionJob → ℕ → Database → Database
sync_if p none now db = db
sync_if p (some job) now db =
    if p job.status then sync_terminal_execution_resource job now db else db

-- A failure ends the job if it is not retryable or no attempt is left; else the job is queued again.
abbrev pub ends_job : ExecutionJobError → ExecutionJob → Bool
ends_job error job = not error.retryable || leb job.max_attempts job.attempt_count

abbrev pub set_failure :
    ExecutionJobError → ℕ → ℕ → ExecutionJob → ExecutionJobRow → ExecutionJobRow
set_failure error delay now job =
    if ends_job error job
    then set_failed ExecutionJobStatus.failed job.available_at error (some now) now
    else set_failed ExecutionJobStatus.queued (now + delay) error none now

abbrev pub fail_job :
    Option ExecutionJob
    → String
    → String
    → ExecutionJobError
    → ℕ
    → ℕ
    → Database
    → Option ExecutionJob × Database
fail_job none id owner error delay now db = (none, db)
fail_job (some job) id owner error delay now db =
    if is_terminal job.status
    then (some job, sync_if is_failed (some job) (or_now job.completed_at now) db)
    else if not (owner_is job.lease_owner owner) || not (lease_live job.lease_expires_at now)
    then (none, db)
    else let (failed, db') = update_held id owner now (set_failure error delay now job) db in
      (failed, sync_if is_failed failed now db')

abbrev pub delay_or_default : Option ℕ → ℕ
delay_or_default none = default_execution_retry_delay_ms
delay_or_default (some d) = d

unfoldable pub fail_execution_job :
    String → String → ExecutionJobError → Option ℕ → ℕ → Operation (Option ExecutionJob)
unfolding get_execution_job update_held
fail_execution_job id owner error retry_delay now db =
    let delay = delay_or_default retry_delay in
    if not (is_valid_lease_owner owner)
    then (thrown invalid_lease_owner, db)
    else if not (is_valid_error error)
    then (thrown invalid_error, db)
    else if ltb execution_retry_delay_max_ms delay
    then (thrown invalid_retry_delay, db)
    else let (job, db') = fail_job (get_execution_job id db) id owner error delay now db in
      (ok job, db')

abbrev pub cancel_existing : Option ExecutionJob → ℕ → Database → Option ExecutionJob × Database
cancel_existing none now db = (none, db)
cancel_existing (some job) now db =
    if is_cancelled job.status
    then (some job, sync_terminal_execution_resource job (or_now job.completed_at now) db)
    else (none, db)

abbrev pub cancel_updated :
    List ExecutionJobRow → String → ℕ → Database → Database → Option ExecutionJob × Database
cancel_updated [] id now before after = cancel_existing (get_execution_job id before) now before
cancel_updated (r ∷ rs) id now before after =
    (parse_execution_job r, sync_parsed (parse_execution_job r) now after)

unfoldable pub cancel_execution_job : String → ℕ → Operation (Option ExecutionJob)
unfolding get_execution_job
cancel_execution_job id now db =
    let set = set_cancelled now in
    let (job, db') =
      cancel_updated (returning (is_cancellable id) set db.execution_jobs) id now db
        (put_rows (update_where (is_cancellable id) set db.execution_jobs) db) in
    (ok job, db')
