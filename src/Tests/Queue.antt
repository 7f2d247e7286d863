-- ===== src/Tests/Queue.antt =====
-- The queue, on a sample database.
use webperf_selfhosted.Base.{map_set}
use webperf_selfhosted.Tests.Samples.{probe_job, mixed_targets}
use webperf_selfhosted.Base.{text_length}
use webperf_selfhosted.Base.{
  ◌≡◌, refl, true, false, none, some, [], ◌∷◌, any, every, includes, arith, Unique, map_get,
}
use webperf_selfhosted.Report.Types.{LatencyJobDetail}
use webperf_selfhosted.Queue.Types.{
  ExecutionJobKind, ExecutionJobRow, ExecutionJob, ExecutionJobStatus, Database, ok,
}
use webperf_selfhosted.Queue.Schema.{
  row_fits, parse_execution_job, is_bounded_job_id, has_length, is_valid_lease_owner,
  is_valid_enqueue,
}
use webperf_selfhosted.Queue.Statements.{
  ids_of, get_execution_job_row, is_held_by, set_leased, update_where, returning,
}
use webperf_selfhosted.Queue.Sync.{has_in_flight, readable, sync_jobs, persist_job, terminalize_job}
use webperf_selfhosted.Queue.Operation.{get_execution_job}
use webperf_selfhosted.Queue.Enqueue.{enqueue_execution}
use webperf_selfhosted.Queue.Lease.{claim_execution_job, complete_execution_job, update_held}
use webperf_selfhosted.Queue.Run.{Call, step, empty_database, start_empty, after}
use webperf_selfhosted.Queue.Transition.Moves.{Moves}
use webperf_selfhosted.Queue.Transition.Inserts.{step-Moves}
use webperf_selfhosted.Queue.Soundness.{IsSound, Reachable-IsSound}
use webperf_selfhosted.Queue.Leases.{
  claim_execution_job_keeps_live_lease, stale_owner_changes_no_row,
}
use webperf_selfhosted.Queue.Outcomes.{complete_execution_job_repeats}
use webperf_selfhosted.Queue.Repeats.{enqueue_execution_repeats}
use webperf_selfhosted.Queue.Settling.{is_filed, sync_jobs_leaves_none_in_flight}
use webperf_selfhosted.Tests.Samples.{database, queued_row, leased_row, probe_error, request}

database-Unique : Unique (ids_of database.execution_jobs)
unfolding includes
database-Unique = (refl, (refl, tt))

leased_found : get_execution_job_row "exec-2" database.execution_jobs ≡ some leased_row
unfolding get_execution_job_row
leased_found = refl

-- The database after one enqueue and one claim.
abbrev claimed : Database
claimed =
    step (Call.claim "worker-a" 5000 none) 3000 (step (Call.enqueue request) 1500 empty_database)

Reachable-IsSound_example : IsSound claimed.execution_jobs
Reachable-IsSound_example =
    Reachable-IsSound
      (after (Call.claim "worker-a" 5000 none) 3000 (after (Call.enqueue request) 1500 start_empty))

step-Moves_example : Moves 3000 database (step (Call.cancel "exec-1") 3000 database)
step-Moves_example = step-Moves (Call.cancel "exec-1") 3000 database database-Unique

claim_execution_job_keeps_live_lease_example :
    get_execution_job_row "exec-2"
      (claim_execution_job "worker-b" 5000 none 3000 database).1.execution_jobs
    ≡ some leased_row
claim_execution_job_keeps_live_lease_example =
    claim_execution_job_keeps_live_lease "worker-b" 5000 none 3000 database "exec-2" leased_row
      database-Unique leased_found refl refl

not_held : any (is_held_by "exec-2" "worker-b" 3000) database.execution_jobs ≡ false
unfolding is_held_by
not_held = refl

stale_owner_changes_no_row_example :
    ((step (Call.start "exec-2" "worker-b" 5000) 3000 database).execution_jobs
      ≡ database.execution_jobs)
    × ((step (Call.renew "exec-2" "worker-b" 5000) 3000 database).execution_jobs
        ≡ database.execution_jobs)
    × ((step (Call.complete "exec-2" "worker-b") 3000 database).execution_jobs
        ≡ database.execution_jobs)
    × ((step (Call.fail "exec-2" "worker-b" probe_error none) 3000 database).execution_jobs
        ≡ database.execution_jobs)
stale_owner_changes_no_row_example =
    stale_owner_changes_no_row "exec-2" "worker-b" 5000 probe_error none 3000 database not_held

abbrev job_of : ExecutionJobRow → ExecutionJob
job_of r = record {
  id = r.id;
  kind = r.kind;
  resource_id = r.resource_id;
  status = r.status;
  lease_owner = r.lease_owner;
  lease_expires_at = r.lease_expires_at;
  attempt_count = r.attempt_count;
  max_attempts = r.max_attempts;
  available_at = r.available_at;
  payload = request.payload;
  error = none;
  created_at = r.created_at;
  updated_at = r.updated_at;
  completed_at = r.completed_at;
}

abbrev granted_job : ExecutionJob
granted_job = job_of (set_leased "worker-b" 8000 3000 queued_row)

owner_valid : is_valid_lease_owner "worker-a" ≡ true
unfolding is_valid_lease_owner has_length text_length
owner_valid = refl

abbrev succeeded_job : ExecutionJob
succeeded_job = record (job_of leased_row) {
  status = ExecutionJobStatus.succeeded;
  lease_owner = none;
  lease_expires_at = none;
  updated_at = 3000;
  completed_at = some 3000;
}

completes : (complete_execution_job "exec-2" "worker-a" 3000 database).0 ≡ ok (some succeeded_job)
unfolding complete_execution_job get_execution_job get_execution_job_row update_held update_where
    returning is_held_by parse_execution_job row_fits is_bounded_job_id has_length text_length
    is_valid_lease_owner
completes = refl

complete_execution_job_repeats_example :
    complete_execution_job "exec-2" "worker-a" 4000
      (complete_execution_job "exec-2" "worker-a" 3000 database).1
    ≡ (ok (some succeeded_job), (complete_execution_job "exec-2" "worker-a" 3000 database).1)
complete_execution_job_repeats_example =
    complete_execution_job_repeats "exec-2" "worker-a" "worker-a" 3000 4000 database succeeded_job
      owner_valid completes

abbrev enqueued_job : ExecutionJob
enqueued_job = record {
  id = "exec-3";
  kind = ExecutionJobKind.network_probe;
  resource_id = "run-1";
  status = ExecutionJobStatus.queued;
  lease_owner = none;
  lease_expires_at = none;
  attempt_count = 0;
  max_attempts = 3;
  available_at = 2000;
  payload = request.payload;
  error = none;
  created_at = 1500;
  updated_at = 1500;
  completed_at = none;
}

enqueued : (enqueue_execution request 1500 database).0 ≡ ok enqueued_job
unfolding enqueue_execution is_valid_enqueue get_execution_job_row parse_execution_job row_fits
    is_bounded_job_id has_length text_length is_valid_lease_owner
enqueued = refl

enqueue_execution_repeats_example :
    enqueue_execution request 1600 (enqueue_execution request 1500 database).1
    ≡ (ok enqueued_job, (enqueue_execution request 1500 database).1)
enqueue_execution_repeats_example =
    enqueue_execution_repeats request 1500 1600 database enqueued_job (omega arith) enqueued

filed : every is_filed database.jobs ≡ true
filed = refl

listed : includes "job-1" ("job-1" ∷ []) ≡ true
unfolding includes
listed = refl

abbrev settled_job : LatencyJobDetail
settled_job = terminalize_job "execution_failed" "Stopped" 3000 (probe_job "job-1" mixed_targets)

settled_read :
    readable
      (map_get "job-1" (sync_jobs "execution_failed" "Stopped" 3000 ("job-1" ∷ []) database).jobs)
    ≡ some settled_job
unfolding sync_jobs persist_job map_get map_set
settled_read = refl

sync_jobs_leaves_none_in_flight_example : has_in_flight settled_job.targets ≡ false
sync_jobs_leaves_none_in_flight_example =
    sync_jobs_leaves_none_in_flight "execution_failed" "Stopped" 3000 ("job-1" ∷ []) "job-1"
      database settled_job filed listed settled_read
