-- ===== src/Queue/Transition/Claims.antt =====
-- Claims and cancellations move the rows along the steps.
use mathlib.Core.Path.{subst}
use webperf_selfhosted.Base.{
  ℕ, ◌≤◌, ◌<◌, String, ◌≡◌, refl, sym, ◌∙◌, Bool, true, false, Option, none, some, List, [], ◌∷◌,
  arith, All-map, Unique,
}
use webperf_selfhosted.Queue.Types.{ExecutionJobRow, ExecutionJobKind, ExecutionJob, Database}
use webperf_selfhosted.Queue.Schema.{is_terminal, is_valid_lease_owner, parse_execution_job}
use webperf_selfhosted.Queue.Statements.{
  ids_of, update_where, returning, is_claimable, is_exhausted, in_selection, is_due, select_ids,
  set_leased, set_cancelled, set_exhausted, is_cancellable,
  execution_exhaustion_finalization_batch_size,
}
use webperf_selfhosted.Queue.Sync.Laws.{rows-sync}
use webperf_selfhosted.Queue.Operation.{get_lease_expires_at, get_execution_job, put_rows}
use webperf_selfhosted.Queue.Lease.{
  exhausted_error, sync_parsed, sync_rows, finalize_exhausted, claim_first, claim_execution_job,
  cancel_existing, cancel_updated, cancel_execution_job, or_now,
}
use webperf_selfhosted.Queue.Transition.{RowStep, lease, cancel, exhaust, Evolves}
use webperf_selfhosted.Queue.Transition.Selection.{selected}
use webperf_selfhosted.Queue.Transition.Updates.{
  update_where-Evolves, everywhere, ids_of-update_where,
}
use webperf_selfhosted.Queue.Transition.Moves.{
  Moves, still, Moves-same, Moves-update, Moves-trans, Moves-with,
}
use webperf_selfhosted.Queue.Transition.Calls.{lease_bounds}

cancellable_row :
    (id : String) (r : ExecutionJobRow) → is_cancellable id r ≡ true → is_terminal r.status ≡ false
cancellable_row id r h = ground arith

sync_parsed-rows :
    (job : Option ExecutionJob) (now : ℕ) (db : Database)
    → (sync_parsed job now db).execution_jobs ≡ db.execution_jobs
sync_parsed-rows none now db = refl
sync_parsed-rows (some job) now db = rows-sync job now db

cancel_existing-rows :
    (job : Option ExecutionJob) (now : ℕ) (db : Database)
    → (cancel_existing job now db).1.execution_jobs ≡ db.execution_jobs
cancel_existing-rows none now db = refl
cancel_existing-rows (some job) now db =
    ground (arith, rows-sync job (or_now job.completed_at now) db)

cancel_updated-Moves :
    (updated : List ExecutionJobRow) (id : String) (now : ℕ) (before after : Database)
    → Moves now before after
    → Moves now before (cancel_updated updated id now before after).1
cancel_updated-Moves [] id now before after m =
    Moves-same (cancel_existing-rows (get_execution_job id before) now before)
cancel_updated-Moves (r ∷ rs) id now before after m =
    Moves-trans m (Moves-same (sync_parsed-rows (parse_execution_job r) now after))

pub cancel-Moves :
    (id : String) (now : ℕ) (db : Database) → Moves now db (cancel_execution_job id now db).1
unfolding cancel_execution_job
cancel-Moves id now db =
    cancel_updated-Moves (returning (is_cancellable id) (set_cancelled now) db.execution_jobs) id
      now db _
      (Moves-update (
        update_where-Evolves now _ (set_cancelled now) db.execution_jobs
          (everywhere (λ r h. cancel r (cancellable_row id r h)) db.execution_jobs)))

pub sync_rows-rows :
    (rows : List ExecutionJobRow) (now : ℕ) (db : Database)
    → (sync_rows rows now db).execution_jobs ≡ db.execution_jobs
unfolding sync_rows
sync_rows-rows [] now db = refl
sync_rows-rows (r ∷ rs) now db =
    sync_rows-rows rs now _ ∙ sync_parsed-rows (parse_execution_job r) now db

exhausted_row :
    (kind : Option ExecutionJobKind) (now : ℕ) (r : ExecutionJobRow)
    → is_exhausted kind now r ≡ true
    → (is_due r now ≡ true) × (r.max_attempts ≤ r.attempt_count)
unfolding is_exhausted
exhausted_row kind now r h = ground arith

claimable_row :
    (kind : Option ExecutionJobKind) (now : ℕ) (r : ExecutionJobRow)
    → is_claimable kind now r ≡ true
    → (is_due r now ≡ true) × (r.attempt_count < r.max_attempts)
unfolding is_claimable
claimable_row kind now r h = ground arith

-- An update of selected rows, where the selection's condition allows the step.
update_selected :
    (p : ExecutionJobRow → Bool) (n now : ℕ) (set : ExecutionJobRow → ExecutionJobRow)
    (rows : List ExecutionJobRow)
    → ((r : ExecutionJobRow) → p r ≡ true → RowStep now r (set r))
    → Unique (ids_of rows)
    → Evolves now rows (update_where (in_selection (select_ids p n rows)) set rows)
update_selected p n now set rows h u =
    update_where-Evolves now _ set rows (All-map (λ r k e. h r (k e)) rows (selected p n rows u))

-- The ids that the first step of a claim finalizes.
abbrev pub exhausted_ids : Option ExecutionJobKind → ℕ → Database → List String
exhausted_ids kind now db =
    select_ids (is_exhausted kind now) execution_exhaustion_finalization_batch_size
      db.execution_jobs

pub finalize-rows :
    (kind : Option ExecutionJobKind) (now : ℕ) (db : Database)
    → (finalize_exhausted kind now db).execution_jobs
      ≡ update_where
          (in_selection (exhausted_ids kind now db))
          (set_exhausted exhausted_error now)
          db.execution_jobs
unfolding finalize_exhausted
finalize-rows kind now db =
    let p = in_selection (exhausted_ids kind now db) in
    let set = set_exhausted exhausted_error now in
    sync_rows-rows (returning p set db.execution_jobs) now
      (put_rows (update_where p set db.execution_jobs) db)

finalize-Moves :
    (kind : Option ExecutionJobKind) (now : ℕ) (db : Database)
    → Unique (ids_of db.execution_jobs)
    → Moves now db (finalize_exhausted kind now db)
finalize-Moves kind now db u = Moves-update (
    rw (finalize-rows kind now db) (
      update_selected (is_exhausted kind now) execution_exhaustion_finalization_batch_size now
        (set_exhausted exhausted_error now) db.execution_jobs
        (λ r h.
          exhaust r exhausted_error (exhausted_row kind now r h).0 (exhausted_row kind now r h).1)
        u))

pub finalize-ids :
    (kind : Option ExecutionJobKind) (now : ℕ) (db : Database)
    → ids_of (finalize_exhausted kind now db).execution_jobs ≡ ids_of db.execution_jobs
finalize-ids kind now db = rw (finalize-rows kind now db) (
    ids_of-update_where (in_selection (exhausted_ids kind now db))
      (set_exhausted exhausted_error now) (λ r. refl) db.execution_jobs)

pub claim_first-Moves :
    (owner : String) (t : ℕ) (kind : Option ExecutionJobKind) (now : ℕ) (db : Database)
    → is_valid_lease_owner owner ≡ true
    → now < t
    → Unique (ids_of db.execution_jobs)
    → Moves now db (claim_first owner t kind now db).1
unfolding claim_first
claim_first-Moves owner t kind now db v h u = Moves-update (
    update_selected (is_claimable kind now) 1 now (set_leased owner t now) db.execution_jobs
      (λ r k. lease r owner t v h (claimable_row kind now r k).0 (claimable_row kind now r k).1) u)

pub claim-Moves :
    (owner : String) (duration : ℕ) (kind : Option ExecutionJobKind) (now : ℕ) (db : Database)
    → Unique (ids_of db.execution_jobs)
    → Moves now db (claim_execution_job owner duration kind now db).1
unfolding claim_execution_job
claim-Moves owner duration kind now db u =
    Moves-with (get_lease_expires_at owner duration now) _ db still λ t e.
      let b = lease_bounds owner duration now e in
      Moves-trans (finalize-Moves kind now db u) (
        claim_first-Moves owner t kind now (finalize_exhausted kind now db) b.0 b.1
          (subst Unique (sym (finalize-ids kind now db)) u))
