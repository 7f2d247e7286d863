-- ===== src/Queue/Sync/Laws.antt =====
-- The writes of resources do not touch the queue.
use webperf_selfhosted.Base.{
  ℕ, String, ◌≡◌, refl, ◌∙◌, Bool, Option, none, some, List, [], ◌∷◌, arith, map_get,
}
use webperf_selfhosted.Report.Types.{LatencyJobDetail, CheckProfileRun}
use webperf_selfhosted.Queue.Types.{
  ExecutionJobKind, network_probe, browser_audit, webhook_delivery, ExecutionJob, Payload,
  network_payload, other_payload, Database, BrowserAudit, ResourceResult, network_result,
  audit_result, webhook_result, Result, ok, thrown,
}
use webperf_selfhosted.Queue.Sync.{
  readable, sync_job, sync_jobs, sync_audit, sync_by_kind, sync_terminal_execution_resource,
  append_delivery, persist_jobs, persist_execution_resource,
}

rows-sync_jobs :
    (code message : String) (now : ℕ) (ids : List String) (db : Database)
    → (sync_jobs code message now ids db).execution_jobs ≡ db.execution_jobs
unfolding sync_jobs
rows-sync_jobs code message now [] db = refl
rows-sync_jobs code message now (id ∷ ids) db =
    rows-sync_jobs code message now ids _ ∙ one (readable (map_get id db.jobs))
  where
    one :
        (j : Option LatencyJobDetail)
        → (sync_job code message now j db).execution_jobs ≡ db.execution_jobs
    one j = ground arith

pub rows-sync :
    (job : ExecutionJob) (now : ℕ) (db : Database)
    → (sync_terminal_execution_resource job now db).execution_jobs ≡ db.execution_jobs
unfolding sync_terminal_execution_resource
rows-sync job now db = by_kind job.kind job.payload
  where
    audit :
        (c : Bool) (a : Option BrowserAudit)
        → (sync_audit c now a db).execution_jobs ≡ db.execution_jobs
    audit c a = ground arith

    by_kind :
        (k : ExecutionJobKind) (p : Payload)
        → (sync_by_kind k p job now db).execution_jobs ≡ db.execution_jobs
    by_kind network_probe other_payload = refl
    by_kind network_probe (network_payload ids) = rows-sync_jobs _ _ now ids db
    by_kind browser_audit p = audit _ _
    by_kind webhook_delivery p = refl

-- A database that a write of resources returned has the rows of the one before.
abbrev pub SameRows : Database → Result Database → Type 0
SameRows db (thrown e) = Unit
SameRows db (ok after) = after.execution_jobs ≡ db.execution_jobs

pub rows-persist_jobs :
    (jobs : List LatencyJobDetail) (db : Database)
    → (persist_jobs jobs db).execution_jobs ≡ db.execution_jobs
unfolding persist_jobs
rows-persist_jobs [] db = refl
rows-persist_jobs (j ∷ js) db = rows-persist_jobs js _

pub rows-persist :
    (result : ResourceResult) (db : Database) → SameRows db (persist_execution_resource result db)
unfolding persist_execution_resource
rows-persist (network_result jobs none) db = rows-persist_jobs jobs db
rows-persist (network_result jobs (some run)) db = rows-persist_jobs jobs db
rows-persist (audit_result audit) db = refl
rows-persist (webhook_result run_id delivery) db = append (readable (map_get run_id db.runs))
  where
    append : (run : Option CheckProfileRun) → SameRows db (append_delivery run delivery db)
    append run = ground arith
