-- ===== src/Queue/Transition/Inserts.antt =====
-- Enqueueing moves the rows along the steps, and so does every call.
use mathlib.Core.Path.{subst}
use webperf_selfhosted.Base.{◌-◌}
use webperf_selfhosted.Queue.Schema.{execution_availability_max_delay_ms}
use webperf_selfhosted.Base.{
  ℕ, String, ◌≡◌, refl, true, false, not, Option, none, some, List, [], ◌∷◌, arith, ltb, includes,
  Unique,
}
use webperf_selfhosted.Queue.Types.{
  ExecutionJobRow, EnqueueExecutionJob, Database, Result, ok, thrown, ResourceResult,
}
use webperf_selfhosted.Queue.Schema.{row_fits, is_valid_enqueue}
use webperf_selfhosted.Queue.Statements.{ids_of, get_execution_job_row, same_kind}
use webperf_selfhosted.Queue.Sync.{persist_execution_resource, result_kind}
use webperf_selfhosted.Queue.Sync.Laws.{rows-persist, SameRows}
use webperf_selfhosted.Queue.Enqueue.{
  new_row, available_or, insert_or_get, enqueue_execution, enqueue_all, roll_back,
  owns_running_execution_lease, enqueue_execution_jobs, create_execution_resource,
  save_execution_resource_result,
}
use webperf_selfhosted.Queue.Transition.{IsNew, insert, done}
use webperf_selfhosted.Queue.Transition.Moves.{
  Moves, still, Moves-same, Moves-trans, Moves-if, Moves-with,
}
use webperf_selfhosted.Queue.Transition.Calls.{start-Moves, renew-Moves, complete-Moves, fail-Moves}
use webperf_selfhosted.Queue.Transition.Claims.{cancel-Moves, claim-Moves}
use webperf_selfhosted.Queue.Run.{Call, step}

no_row_no_id :
    (id : String) (rows : List ExecutionJobRow)
    → get_execution_job_row id rows ≡ none
    → includes id (ids_of rows) ≡ false
unfolding get_execution_job_row includes
no_row_no_id id [] h = refl
no_row_no_id id (r ∷ rs) h = ground (arith, no_row_no_id id rs)

new_row-IsNew :
    (job : EnqueueExecutionJob) (t now : ℕ)
    → is_valid_enqueue job ≡ true
    → IsNew (new_row job t now)
unfolding is_valid_enqueue row_fits
new_row-IsNew job t now h = ground arith

insert_or_get-Moves :
    (job : EnqueueExecutionJob) (t now : ℕ) (existing : Option ExecutionJobRow) (db : Database)
    → is_valid_enqueue job ≡ true
    → get_execution_job_row job.id db.execution_jobs ≡ existing
    → Moves now db (insert_or_get job (new_row job t now) existing db).1
insert_or_get-Moves job t now (some r) db v e = still
insert_or_get-Moves job t now none db v e = record {
  at = insert done (new_row-IsNew job t now v) (no_row_no_id job.id db.execution_jobs e);
}

enqueue-Moves :
    (job : EnqueueExecutionJob) (now : ℕ) (db : Database)
    → Moves now db (enqueue_execution job now db).1
unfolding enqueue_execution
enqueue-Moves job now db =
    Moves-if (not (is_valid_enqueue job)) _ _ (λ _. still)
      λ v.
        Moves-if (ltb execution_availability_max_delay_ms (available_or job.available_at now - now))
          _ _ (λ _. still)
          λ _.
            insert_or_get-Moves job (available_or job.available_at now) now
              (get_execution_job_row job.id db.execution_jobs) db (ground arith) refl

enqueue_all-Moves :
    (jobs : List EnqueueExecutionJob) (now : ℕ) (db : Database)
    → Moves now db (enqueue_all jobs now db).1
enqueue_all-Moves [] now db = still
enqueue_all-Moves (j ∷ js) now db =
    let first = enqueue_execution j now db in
    let m = enqueue-Moves j now db in
    Moves-with first.0 _ first.1 m λ job _.
      let rest = enqueue_all js now first.1 in
      Moves-with rest.0 _ rest.1 (Moves-trans m (enqueue_all-Moves js now first.1))
        (λ jobs _. Moves-trans m (enqueue_all-Moves js now first.1))

roll_back-Moves :
    {A : Type 0} {now : ℕ} {db : Database} (x : Result A × Database)
    → Moves now db x.1
    → Moves now db (roll_back db x).1
roll_back-Moves (thrown e, after) m = still
roll_back-Moves (ok a, after) m = m

followups-Moves :
    (id owner : String) (jobs : List EnqueueExecutionJob) (now : ℕ) (db : Database)
    → Moves now db (enqueue_execution_jobs id owner jobs now db).1
unfolding enqueue_execution_jobs
followups-Moves id owner jobs now db =
    Moves-if (not (owns_running_execution_lease id owner now db)) _ _ (λ _. still)
      λ _.
        let x = enqueue_all jobs now db in
        roll_back-Moves _ (
          Moves-with x.0 _ x.1 (enqueue_all-Moves jobs now db)
            (λ js _. enqueue_all-Moves jobs now db))

persisted :
    {now : ℕ} (result : ResourceResult) (db : Database) {after : Database}
    → persist_execution_resource result db ≡ ok after
    → Moves now db after
persisted result db e = Moves-same (subst (SameRows db) e (rows-persist result db))

create-Moves :
    (job : EnqueueExecutionJob) (result : ResourceResult) (now : ℕ) (db : Database)
    → Moves now db (create_execution_resource job result now db).1
unfolding create_execution_resource
create-Moves job result now db =
    Moves-if (not (same_kind job.kind (result_kind result))) _ _ (λ _. still)
      λ _. roll_back-Moves _ (
        Moves-with (persist_execution_resource result db) _ db still
          (λ after e. Moves-trans (persisted result db e) (enqueue-Moves job now after)))

save-Moves :
    (id owner : String) (result : ResourceResult) (now : ℕ) (db : Database)
    → Moves now db (save_execution_resource_result id owner result now db).1
unfolding save_execution_resource_result
save-Moves id owner result now db =
    Moves-if (not (owns_running_execution_lease id owner now db)) _ _ (λ _. still)
      λ _.
        Moves-with (persist_execution_resource result db) _ db still
          (λ after e. persisted result db e)

-- Every call on a queue with unique ids moves its rows only along the steps of `RowStep`, and
-- inserts only new rows of ids that are not there.
pub step-Moves :
    (call : Call) (now : ℕ) (db : Database)
    → Unique (ids_of db.execution_jobs)
    → Moves now db (step call now db)
unfolding step
step-Moves (Call.enqueue job) now db u = enqueue-Moves job now db
step-Moves (Call.enqueue_followups id owner jobs) now db u = followups-Moves id owner jobs now db
step-Moves (Call.create_resource job result) now db u = create-Moves job result now db
step-Moves (Call.save_result id owner result) now db u = save-Moves id owner result now db
step-Moves (Call.claim owner duration kind) now db u = claim-Moves owner duration kind now db u
step-Moves (Call.start id owner duration) now db u = start-Moves now id owner duration db
step-Moves (Call.renew id owner duration) now db u = renew-Moves now id owner duration db
step-Moves (Call.complete id owner) now db u = complete-Moves now id owner db
step-Moves (Call.fail id owner error delay) now db u = fail-Moves now id owner error delay db
step-Moves (Call.cancel id) now db u = cancel-Moves id now db
