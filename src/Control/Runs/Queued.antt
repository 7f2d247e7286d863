-- ===== src/Control/Runs/Queued.antt =====
-- apps/api/src/index.ts, handleRunCheckProfile: what an answered run leaves in the queue's database.
use Prim.Native.String.{◌++◌ as ◌++ₛ◌}
use webperf_selfhosted.Base.{ℕ, zero, String, ◌≡◌, some, List}
use webperf_selfhosted.Report.Types.{LatencyJobDetail, manual}
use webperf_selfhosted.Queue.Types.{Database}
use webperf_selfhosted.Control.Types.{
  CheckProfile, Store, thrown as failed, Answer, answered, refused,
}
use webperf_selfhosted.Control.Store.{get_entity}
use webperf_selfhosted.Control.Inputs.{Platform}
use webperf_selfhosted.Control.Jobs.{
  Deployment, CreatedJob, jobs_of, create_check_profile_run_record,
}
use webperf_selfhosted.Control.Jobs.Created.{IsQueued}

-- The database holds a run of the profile by hand, with these jobs, and its execution.
pub record HasRun (run_id : String) (profile : CheckProfile) (jobs : List LatencyJobDetail)
    (now : ℕ) (db : Database) : Type 0 where
  pub created : List CreatedJob
  pub made : jobs_of created ≡ jobs
  pub queued :
      IsQueued jobs (create_check_profile_run_record run_id profile manual created now) now db

module _ (platform : Platform) (deployment : Deployment) (now : ℕ) where
  abbrev run_id : String
  run_id = platform.fresh "run_" zero

  abbrev pub RunIfAnswered : CheckProfile → Answer (List LatencyJobDetail) × Store → Type 0
  RunIfAnswered p (refused code, later) = Unit {0}
  RunIfAnswered p (answered code jobs, later) = HasRun run_id p jobs now later.database

  -- The profile under the id, and the run that the answer leaves.
  pub record AnsweredRun (id : String) (store : Store) (jobs : List LatencyJobDetail)
      (db : Database) : Type 0 where
    pub profile : CheckProfile
    pub there : get_entity id store.check_profiles ≡ some profile
    pub run : HasRun run_id profile jobs now db

  abbrev pub RunAnswered : String → Store → Answer (List LatencyJobDetail) × Store → Type 0
  RunAnswered id store (refused code, later) = Unit {0}
  RunAnswered id store (answered code jobs, later) = AnsweredRun id store jobs later.database
