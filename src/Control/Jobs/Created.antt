-- ===== src/Control/Jobs/Created.antt =====
-- apps/api/src/index.ts, createNetworkExecutionResource: what it leaves in the queue's database.
use Prim.Native.String.{◌++◌ as ◌++ₛ◌}
use webperf_selfhosted.Base.{
  ℕ, ◌-◌, String, ◌≡◌, refl, sym, ap, ◌∙◌, Bool, true, false, not, ◌||◌, none, some, List, map,
  map_get, map_get-map_set, ltb, eq_refl, arith, Bool-cases, inl, inr,
}
use webperf_selfhosted.Report.Types.{LatencyJobDetail, CheckProfileRun}
use webperf_selfhosted.Queue.Types.{
  EnqueueExecutionJob, ExecutionJob, network_payload, network_result, network_probe, sealed,
  Database, Result, ok, thrown, ResourceResult,
}
use webperf_selfhosted.Queue.Schema.{execution_availability_max_delay_ms, is_valid_enqueue}
use webperf_selfhosted.Queue.Statements.{get_execution_job_row, same_kind}
use webperf_selfhosted.Queue.Sync.{persist_run, persist_jobs, persist_execution_resource}
use webperf_selfhosted.Queue.Sync.Laws.{rows-persist_jobs}
use webperf_selfhosted.Queue.Rows.{get-head}
use webperf_selfhosted.Queue.Enqueue.{
  new_row, available_or, enqueue_execution, roll_back, create_execution_resource,
}
use webperf_selfhosted.Control.Jobs.{
  Deployment, is_created, has_attempts, max_attempts_from, targets_of_jobs, is_valid_payload,
  cutoff, prune_jobs, create_from, create_network_execution_resource,
  build_network_execution_resource_input,
}

-- An enqueue under a new id that succeeds adds the row of the job.
enqueue_new :
    (job : EnqueueExecutionJob) (now : ℕ) (db : Database)
    → get_execution_job_row job.id db.execution_jobs ≡ none
    → is_created (enqueue_execution job now db).0 ≡ true
    → (get_execution_job_row job.id (enqueue_execution job now db).1.execution_jobs
        ≡ some (new_row job (available_or job.available_at now) now))
      × ((enqueue_execution job now db).1.runs ≡ db.runs)
unfolding enqueue_execution
enqueue_new job now db free h = elim (Bool-cases (not (is_valid_enqueue job))) [
  | inl t ↦ absurd (ground (arith, t, h))
  | inr t ↦
      elim (Bool-cases
        (ltb execution_availability_max_delay_ms (available_or job.available_at now - now))) [
          | inl u ↦ absurd (ground (arith, t, u, h))
          | inr u ↦
              rw (t, u, free)
                (
                  get-head job.id (new_row job (available_or job.available_at now) now)
                      db.execution_jobs (eq_refl job.id),
                  refl,
                )
        ]
]

roll_back_created :
    (db : Database) (x : Result ExecutionJob × Database)
    → is_created (roll_back db x).0 ≡ true
    → (is_created x.0 ≡ true) × ((roll_back db x).1 ≡ x.1)
roll_back_created db (ok job, after) h = (refl, refl)
roll_back_created db (thrown e, after) h = absurd (cc)

-- Created with a network result, under a new id: the row, and the run.
create_new :
    (job : EnqueueExecutionJob) (jobs : List LatencyJobDetail) (run : CheckProfileRun) (now : ℕ)
    (db : Database)
    → get_execution_job_row job.id db.execution_jobs ≡ none
    → is_created (create_execution_resource job (network_result jobs (some run)) now db).0 ≡ true
    → (get_execution_job_row job.id
          (create_execution_resource job (network_result jobs (some run)) now db).1.execution_jobs
        ≡ some (new_row job (available_or job.available_at now) now))
      × (map_get run.id
            (create_execution_resource job (network_result jobs (some run)) now db).1.runs
          ≡ some (sealed run))
unfolding create_execution_resource persist_execution_resource persist_run
create_new job jobs run now db free h = elim (Bool-cases (not (same_kind job.kind network_probe))) [
  | inl t ↦ absurd (ground (arith, t, h))
  | inr t ↦
      let saved = persist_run run (persist_jobs jobs db) in
      let kept : saved.execution_jobs ≡ db.execution_jobs = rows-persist_jobs jobs db in
      let opened : create_execution_resource job (network_result jobs (some run)) now db
          ≡ roll_back db (enqueue_execution job now saved) =
        rw t refl in
      let created : is_created (roll_back db (enqueue_execution job now saved)).0 ≡ true =
        ap (λ (x : Result ExecutionJob × Database). is_created x.0) (sym opened) ∙ h in
      let rolled = roll_back_created db (enqueue_execution job now saved) created in
      let new =
        enqueue_new job now saved (ap (get_execution_job_row job.id) kept ∙ free) rolled.0 in
      let stored : map_get run.id saved.runs ≡ some (sealed run) =
        map_get-map_set run.id run.id (sealed run) (persist_jobs jobs db).runs
        ∙ rw (eq_refl run.id) refl in
      rw (t, rolled.1) (new.0, ap (map_get run.id) new.1 ∙ stored)
]

-- The execution that a run of these jobs is queued as.
abbrev pub execution_of : List LatencyJobDetail → CheckProfileRun → EnqueueExecutionJob
execution_of jobs run = record {
  id = "exec_" ++ₛ run.id;
  kind = network_probe;
  resource_id = run.id;
  max_attempts = some (max_attempts_from 0 (targets_of_jobs jobs));
  available_at = none;
  payload = network_payload (map (λ (j : LatencyJobDetail). j.id) jobs);
}

-- The database holds the run, and the execution of its jobs, queued and due at once.
pub record IsQueued (jobs : List LatencyJobDetail) (run : CheckProfileRun) (now : ℕ) (db : Database)
    : Type 0 where
  pub execution :
      get_execution_job_row ("exec_" ++ₛ run.id) db.execution_jobs
      ≡ some (new_row (execution_of jobs run) now now)
  pub run_stored : map_get run.id db.runs ≡ some (sealed run)

false_created : (db : Database) (x : Bool × Database) → x ≡ (false, db) → x.0 ≡ true → ⊥
false_created db x e h = let no = sym (ap (λ (y : Bool × Database). y.0) e) ∙ h in cc

pub created-IsQueued :
    (deployment : Deployment) (jobs : List LatencyJobDetail) (run : CheckProfileRun)
    (check_id : String) (now : ℕ) (db : Database)
    → get_execution_job_row ("exec_" ++ₛ run.id) db.execution_jobs ≡ none
    → (create_network_execution_resource deployment jobs run check_id now db).0 ≡ true
    → IsQueued jobs run now
        (create_network_execution_resource deployment jobs run check_id now db).1
unfolding create_network_execution_resource build_network_execution_resource_input
created-IsQueued deployment jobs run check_id now db free h =
    let job_ids = map (λ (j : LatencyJobDetail). j.id) jobs in
    let input : EnqueueExecutionJob × ResourceResult =
      (execution_of jobs run, network_result jobs (some run)) in
    let creates = create_network_execution_resource deployment jobs run check_id now db in
    elim (Bool-cases (
      not (has_attempts (targets_of_jobs jobs))
      || not (is_valid_payload job_ids check_id run.id))) [
        | inl t ↦
            let opened : creates ≡ (false, db) = rw t refl in
            absurd (false_created db creates opened h)
        | inr t ↦
            let opened : creates ≡ create_from deployment now (some input) db = rw t refl in
            let pruned = record db {
              jobs = prune_jobs (cutoff deployment.retention_days now) db.jobs;
            } in
            let created = ap (λ (x : Bool × Database). x.0) (sym opened) ∙ h in
            let new = create_new (execution_of jobs run) jobs run now pruned free created in
            rw t (record { execution = new.0; run_stored = new.1 })
      ]
