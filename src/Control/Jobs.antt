-- ===== src/Control/Jobs.antt =====
-- apps/api/src/index.ts: the jobs of a run, and their execution in the queue.
pub mod Created
use Prim.Native.String.{◌++◌ as ◌++ₛ◌}
use webperf_selfhosted.Base.{
  ℕ, suc, ◌-◌, ◌*◌, String, Bool, true, false, not, ◌&&◌, ◌||◌, Option, none, some, List, [], ◌∷◌,
  ◌++◌, map, length, every, ltb, leb, max, if◌then◌else◌, text_length,
}
use webperf_selfhosted.Report.Types.{
  TargetStatus, JobStatus, LatencyJobTarget, LatencyJobDetail, RunTrigger, CheckProfileRun,
}
use webperf_selfhosted.Report.Status.{summarize_targets}
use webperf_selfhosted.Queue.Types.{
  network_probe, EnqueueExecutionJob, network_payload, Stored, sealed, corrupt, ResourceResult,
  network_result, Database, Result, ok, ExecutionJob,
}
use webperf_selfhosted.Queue.Enqueue.{create_execution_resource}
use webperf_selfhosted.Domain.Url.{validate_measurement_url}
use webperf_selfhosted.Control.Types.{
  RouteEntry, RouteSet, CheckProfile, Store, Attempt, done, thrown, invalid,
}
use webperf_selfhosted.Control.Store.{get_entity}
use webperf_selfhosted.Control.Inputs.{Platform, ◌>>=◌, href_of, normalize_custom_request_config}

-- What is read of the runtime's configuration.
pub record Deployment : Type 0 where
  pub region_id : String
  pub max_target_attempts : ℕ
  pub retention_days : ℕ

abbrev pub queued_target : String → Deployment → ℕ → LatencyJobTarget
queued_target job_id deployment now = record {
  job_id = job_id;
  region = deployment.region_id;
  status = TargetStatus.queued;
  attempt_no = 0;
  max_attempts = deployment.max_target_attempts;
  latency_ms = none;
  status_code = none;
  success = none;
  probe_impl = none;
  measurement = none;
  slot_id = none;
  error_code = none;
  error_class = none;
  error_message = none;
  started_at = none;
  finished_at = none;
  updated_at = now;
}

abbrev pub queued_job : String → String → Deployment → ℕ → LatencyJobDetail
queued_job id url deployment now =
    let targets = queued_target id deployment now ∷ [] in
    record {
      id = id;
      url = url;
      status = JobStatus.queued;
      requested_at = now;
      completed_at = none;
      targets = targets;
      evaluation = none;
      summary = summarize_targets targets;
    }

pub record CreatedJob : Type 0 where
  pub route : RouteEntry
  pub job : LatencyJobDetail

abbrev pub jobs_of : List CreatedJob → List LatencyJobDetail
jobs_of = map (λ (c : CreatedJob). c.job)

unfoldable pub max_attempts_from : ℕ → List LatencyJobTarget → ℕ
max_attempts_from most [] = most
max_attempts_from most (t ∷ ts) = max_attempts_from (max most t.max_attempts) ts

abbrev pub has_attempts : List LatencyJobTarget → Bool
has_attempts [] = false
has_attempts (t ∷ ts) = true

unfoldable pub targets_of_jobs : List LatencyJobDetail → List LatencyJobTarget
targets_of_jobs [] = []
targets_of_jobs (j ∷ js) = j.targets ++ targets_of_jobs js

abbrev pub is_payload_id : String → Bool
is_payload_id id = leb 1 (text_length id) && leb (text_length id) 160

abbrev pub network_probe_max_jobs_per_execution : ℕ
network_probe_max_jobs_per_execution = 20

-- networkProbeExecutionPayloadSchema, where the check and the run are both there.
abbrev pub is_valid_payload : List String → String → String → Bool
is_valid_payload job_ids check_id run_id =
    leb 1 (length job_ids)
    && leb (length job_ids) network_probe_max_jobs_per_execution
    && every is_payload_id job_ids
    && is_payload_id check_id
    && is_payload_id run_id

unfoldable pub build_network_execution_resource_input :
    List LatencyJobDetail → CheckProfileRun → String → Option (EnqueueExecutionJob × ResourceResult)
unfolding max_attempts_from targets_of_jobs
build_network_execution_resource_input jobs run check_id =
    let job_ids = map (λ (j : LatencyJobDetail). j.id) jobs in
    let targets = targets_of_jobs jobs in
    if not (has_attempts targets) || not (is_valid_payload job_ids check_id run.id)
    then none
    else some (
      record {
        id = "exec_" ++ₛ run.id;
        kind = network_probe;
        resource_id = run.id;
        max_attempts = some (max_attempts_from 0 targets);
        available_at = none;
        payload = network_payload job_ids;
      },
      network_result jobs (some run),
    )

abbrev pub is_finished : JobStatus → Bool
is_finished JobStatus.succeeded = true
is_finished JobStatus.failed = true
is_finished JobStatus.partial = true
is_finished _ = false

-- `cutoff.setUTCDate(… - retentionDays)`
abbrev pub cutoff : ℕ → ℕ → ℕ
cutoff retention_days now = now - retention_days * 86400000

-- The columns of a job that does not decode are not kept: it stays.
unfoldable pub prune_jobs :
    ℕ → List (String × Stored LatencyJobDetail) → List (String × Stored LatencyJobDetail)
prune_jobs before [] = []
prune_jobs before ((id, corrupt) ∷ rows) = (id, corrupt) ∷ prune_jobs before rows
prune_jobs before ((id, sealed job) ∷ rows) =
    let rest = prune_jobs before rows in
    if ltb job.requested_at before && is_finished job.status then rest else (id, sealed job) ∷ rest

abbrev pub is_created : Result ExecutionJob → Bool
is_created (ok job) = true
is_created _ = false

abbrev pub create_from :
    Deployment → ℕ → Option (EnqueueExecutionJob × ResourceResult) → Database → Bool × Database
create_from deployment now none db = (false, db)
create_from deployment now (some (job, result)) db =
    let pruned = record db { jobs = prune_jobs (cutoff deployment.retention_days now) db.jobs } in
    let created = create_execution_resource job result now pruned in
    (is_created created.0, created.1)

-- Whether the execution was created, and the database after it; false where the code throws.
unfoldable pub create_network_execution_resource :
    Deployment → List LatencyJobDetail → CheckProfileRun → String → ℕ → Database → Bool × Database
unfolding prune_jobs build_network_execution_resource_input
create_network_execution_resource deployment jobs run check_id now db =
    create_from deployment now (build_network_execution_resource_input jobs run check_id) db

unfoldable pub create_check_profile_run_record :
    String → CheckProfile → RunTrigger → List CreatedJob → ℕ → CheckProfileRun
create_check_profile_run_record id profile trigger created_jobs now = record {
  id = id;
  profile_id = profile.id;
  trigger = trigger;
  created_at = now;
  route_count = length created_jobs;
  routes =
      map
        (λ (c : CreatedJob). record {
          route_id = c.route.id;
          route_label = c.route.label;
          url = c.route.url;
          job_id = c.job.id;
        })
        created_jobs;
  evaluation = none;
  alert_deliveries = [];
}

module _ (platform : Platform) (deployment : Deployment) where
  unfoldable pub create_job_record : ℕ → CheckProfile → RouteEntry → ℕ → Attempt LatencyJobDetail
  create_job_record n profile route now =
      href_of platform (validate_measurement_url platform.number platform.parse_url route.url)
      >>= λ checked. normalize_custom_request_config platform profile.request none >>= λ request.
          done (queued_job (platform.fresh "job_" n) route.url deployment now)

  unfoldable pub create_jobs : ℕ → CheckProfile → List RouteEntry → ℕ → Attempt (List CreatedJob)
  create_jobs n profile [] now = done []
  create_jobs n profile (route ∷ routes) now = create_job_record n profile route now >>= λ job.
      create_jobs (suc n) profile routes now >>= λ rest.
      done (record { route = route; job = job } ∷ rest)

  abbrev pub jobs_for_routes : ℕ → CheckProfile → ℕ → Option RouteSet → Attempt (List CreatedJob)
  jobs_for_routes n profile now none = thrown invalid
  jobs_for_routes n profile now (some route_set) = create_jobs n profile route_set.routes now

  unfoldable pub create_jobs_for_profile : ℕ → CheckProfile → ℕ → Store → Attempt (List CreatedJob)
  create_jobs_for_profile n profile now store =
      jobs_for_routes n profile now (get_entity profile.route_set_id store.route_sets)
