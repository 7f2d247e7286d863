-- ===== src/Queue/Leases.antt =====
-- The guarantees of a lease: who holds it, and who cannot take it.
use mathlib.Core.Path.{subst}
use webperf_selfhosted.Base.{
  ℕ, String, ◌≡◌, refl, sym, Bool, true, false, Option, none, some, List, arith, any, Bool-cases,
  inl, inr, Unique,
}
use webperf_selfhosted.Queue.Types.{
  ExecutionJobRow, ExecutionJobKind, ExecutionJobStatus, ExecutionJobError, ExecutionJob, Database,
  Result, ok, thrown,
}
use webperf_selfhosted.Queue.Schema.{is_leased}
use webperf_selfhosted.Queue.Statements.{
  ids_of, is_due, lease_live, in_selection, is_held_by, is_claimable, is_exhausted, select_ids,
  get_execution_job_row, update_where, set_leased, set_exhausted, set_running, set_renewed,
  set_completed, execution_exhaustion_finalization_batch_size,
}
use webperf_selfhosted.Queue.Sync.Laws.{rows-sync}
use webperf_selfhosted.Queue.Operation.{with_value, get_lease_expires_at, get_execution_job}
use webperf_selfhosted.Queue.Lease.{
  exhausted_error, finalize_exhausted, claim_first, claim_execution_job, update_held,
  mark_execution_job_running, renew_execution_job_lease, complete_job, complete_execution_job,
  fail_job, fail_execution_job, sync_if, is_failed, or_now, set_failure, delay_or_default,
}
use webperf_selfhosted.Queue.Transition.Selection.{selected}
use webperf_selfhosted.Queue.Transition.Claims.{finalize-rows, finalize-ids}
use webperf_selfhosted.Queue.Rows.{get-update_where, get-All, update_where-none}
use webperf_selfhosted.Queue.Run.{Call, step}

-- A row under a live lease is not due.
live_not_due :
    (now : ℕ) (r : ExecutionJobRow)
    → is_leased r.status ≡ true
    → lease_live r.lease_expires_at now ≡ true
    → is_due r now ≡ false
live_not_due now r a b = ground arith

-- An update of selected rows leaves a row that the selection's condition fails on.
update_selected-kept :
    (p : ExecutionJobRow → Bool) (n : ℕ) (set : ExecutionJobRow → ExecutionJobRow)
    → ((r : ExecutionJobRow) → (set r).id ≡ r.id)
    → (id : String) (r : ExecutionJobRow) (rows : List ExecutionJobRow) → Unique (ids_of rows)
    → get_execution_job_row id rows ≡ some r
    → p r ≡ false
    → get_execution_job_row id (update_where (in_selection (select_ids p n rows)) set rows) ≡ some r
update_selected-kept p n set h id r rows u g f =
    let q = in_selection (select_ids p n rows) in
    let updated = get-update_where q set h id r rows g in
    let only = get-All _ id r rows g (selected p n rows u) in
    let no : q r ≡ false = elim (Bool-cases (q r)) [
      | inl e ↦ absurd (ground (arith, only e))
      | inr e ↦ e
    ] in
    ground (arith, updated, no)

exhausted-due :
    (kind : Option ExecutionJobKind) (now : ℕ) (r : ExecutionJobRow)
    → is_due r now ≡ false
    → (is_exhausted kind now r ≡ false) × (is_claimable kind now r ≡ false)
unfolding is_exhausted is_claimable
exhausted-due kind now r h = ground arith

-- Where ids are unique, a claim by any worker leaves a row whose lease is live exactly as it is: no
-- second worker takes the job, and the exhaustion pass does not end it.
pub claim_execution_job_keeps_live_lease :
    (owner : String) (duration : ℕ) (kind : Option ExecutionJobKind) (now : ℕ) (db : Database)
    (id : String) (r : ExecutionJobRow)
    → Unique (ids_of db.execution_jobs)
    → get_execution_job_row id db.execution_jobs ≡ some r
    → is_leased r.status ≡ true
    → lease_live r.lease_expires_at now ≡ true
    → get_execution_job_row id (claim_execution_job owner duration kind now db).1.execution_jobs
      ≡ some r
unfolding claim_execution_job claim_first
claim_execution_job_keeps_live_lease owner duration kind now db id r u g a b =
    granted (get_lease_expires_at owner duration now)
  where
    no : (is_exhausted kind now r ≡ false) × (is_claimable kind now r ≡ false)
    no = exhausted-due kind now r (live_not_due now r a b)

    finalized : Database
    finalized = finalize_exhausted kind now db

    later : get_execution_job_row id finalized.execution_jobs ≡ some r
    later = rw (finalize-rows kind now db) (
        update_selected-kept (is_exhausted kind now) execution_exhaustion_finalization_batch_size
          (set_exhausted exhausted_error now) (λ x. refl) id r db.execution_jobs u g no.0)

    granted :
        (t : Result ℕ)
        → get_execution_job_row id
            (with_value t
              (λ expires_at db₁.
                let (job, db') =
                  claim_first owner expires_at kind now (finalize_exhausted kind now db₁) in
                (ok job, db'))
              db).1.execution_jobs
          ≡ some r
    granted (thrown e) = g
    granted (ok t) =
        update_selected-kept (is_claimable kind now) 1 (set_leased owner t now) (λ x. refl) id r
          finalized.execution_jobs (subst Unique (sym (finalize-ids kind now db)) u) later no.1

-- The rows after a held update that holds no row.
update_held-none :
    (id owner : String) (now : ℕ) (set : ExecutionJobRow → ExecutionJobRow) (db : Database)
    → any (is_held_by id owner now) db.execution_jobs ≡ false
    → (update_held id owner now set db).1.execution_jobs ≡ db.execution_jobs
unfolding update_held
update_held-none id owner now set db h =
    update_where-none (is_held_by id owner now) set db.execution_jobs h

pub sync_if-rows :
    (p : ExecutionJobStatus → Bool) (job : Option ExecutionJob) (now : ℕ) (db : Database)
    → (sync_if p job now db).execution_jobs ≡ db.execution_jobs
sync_if-rows p none now db = refl
sync_if-rows p (some job) now db = ground (arith, rows-sync job now db)

-- A worker that holds no live lease of the job, since it never had it, let it run out, or gave it
-- back, changes no row of the queue by starting, renewing, completing or failing the job.
pub stale_owner_changes_no_row :
    (id owner : String) (duration : ℕ) (error : ExecutionJobError) (delay : Option ℕ) (now : ℕ)
    (db : Database)
    → any (is_held_by id owner now) db.execution_jobs ≡ false
    → ((step (Call.start id owner duration) now db).execution_jobs ≡ db.execution_jobs)
      × ((step (Call.renew id owner duration) now db).execution_jobs ≡ db.execution_jobs)
      × ((step (Call.complete id owner) now db).execution_jobs ≡ db.execution_jobs)
      × ((step (Call.fail id owner error delay) now db).execution_jobs ≡ db.execution_jobs)
unfolding step mark_execution_job_running renew_execution_job_lease complete_execution_job
    fail_execution_job
stale_owner_changes_no_row id owner duration error delay now db h = (
  held (get_lease_expires_at owner duration now) set_running,
  held (get_lease_expires_at owner duration now) set_renewed,
  completed,
  failed,
)
  where
    held :
        (t : Result ℕ) (set : ℕ → ℕ → ExecutionJobRow → ExecutionJobRow)
        → (with_value t
            (λ expires_at db₁.
              let (job, db') = update_held id owner now (set expires_at now) db₁ in (ok job, db'))
            db).1.execution_jobs
          ≡ db.execution_jobs
    held (thrown e) set = refl
    held (ok t) set = update_held-none id owner now (set t now) db h

    complete_one :
        (job : Option ExecutionJob)
        → (complete_job job id owner now db).1.execution_jobs ≡ db.execution_jobs
    complete_one none = refl
    complete_one (some job) = ground (arith, update_held-none id owner now (set_completed now) db h)

    completed : (complete_execution_job id owner now db).1.execution_jobs ≡ db.execution_jobs
    completed = ground (arith, complete_one (get_execution_job id db))

    fail_one :
        (d : ℕ) (job : Option ExecutionJob)
        → (fail_job job id owner error d now db).1.execution_jobs ≡ db.execution_jobs
    fail_one d none = refl
    fail_one d (some job) =
        let set = set_failure error d now job in
        let x = update_held id owner now set db in
        ground (
          arith,
          sync_if-rows is_failed (some job) (or_now job.completed_at now) db,
          sync_if-rows is_failed x.0 now x.1,
          update_held-none id owner now set db h,
        )

    failed : (fail_execution_job id owner error delay now db).1.execution_jobs ≡ db.execution_jobs
    failed = ground (arith, fail_one (delay_or_default delay) (get_execution_job id db))
