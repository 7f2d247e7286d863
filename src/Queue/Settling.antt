-- ===== src/Queue/Settling.antt =====
-- What the end of a network execution does to the jobs of its payload.
use webperf_selfhosted.Base.{
  ℕ, String, ◌≡◌, refl, Bool, true, false, Option, none, some, List, [], ◌∷◌, arith, if◌then◌else◌,
  ◌=ₛ◌, eq_iff, eq_refl, every, includes, map_get, map_set, map_get-map_set,
}
use webperf_selfhosted.Queue.Types.{Database, Stored, sealed, corrupt}
use webperf_selfhosted.Report.Types.{LatencyJobTarget, LatencyJobDetail}
use webperf_selfhosted.Queue.Sync.{
  persist_job, readable, terminalize_target, terminalize_targets, terminalize_job, has_in_flight,
  sync_job, sync_jobs,
}

-- The job of an entry has the entry's key for its id, if it decodes.
abbrev pub is_filed : String × Stored LatencyJobDetail → Bool
is_filed (id, corrupt) = true
is_filed (id, sealed job) = job.id =ₛ id

-- The loop's effect on one stored job.
abbrev pub settled :
    String → String → ℕ → Option (Stored LatencyJobDetail) → Option (Stored LatencyJobDetail)
settled code message now none = none
settled code message now (some corrupt) = some corrupt
settled code message now (some (sealed job)) =
    if has_in_flight job.targets
    then some (sealed (terminalize_job code message now job))
    else some (sealed job)

has_in_flight-terminalize_targets :
    (code message : String) (now : ℕ) (ts : List LatencyJobTarget)
    → has_in_flight (terminalize_targets code message now ts) ≡ false
unfolding terminalize_targets terminalize_target
has_in_flight-terminalize_targets code message now [] = refl
has_in_flight-terminalize_targets code message now (t ∷ ts) =
    ground (arith, has_in_flight-terminalize_targets code message now ts)

settled_idle :
    (code message : String) (now : ℕ) (s : Option (Stored LatencyJobDetail))
    (job : LatencyJobDetail)
    → readable (settled code message now s) ≡ some job
    → has_in_flight job.targets ≡ false
unfolding terminalize_job
settled_idle code message now none job h = absurd (cc)
settled_idle code message now (some corrupt) job h = absurd (cc)
settled_idle code message now (some (sealed j)) job h =
    ground (arith, has_in_flight-terminalize_targets code message now j.targets)

settled-settled :
    (code message : String) (now : ℕ) (s : Option (Stored LatencyJobDetail))
    → settled code message now (settled code message now s) ≡ settled code message now s
unfolding terminalize_job
settled-settled code message now none = refl
settled-settled code message now (some corrupt) = refl
settled-settled code message now (some (sealed j)) =
    ground (arith, has_in_flight-terminalize_targets code message now j.targets)

filed-get :
    (id : String) (job : LatencyJobDetail) (entries : List (String × Stored LatencyJobDetail))
    → every is_filed entries ≡ true
    → map_get id entries ≡ some (sealed job)
    → job.id ≡ id
unfolding map_get
filed-get id job [] f g = absurd (cc)
filed-get id job ((k, corrupt) ∷ es) f g = ground (arith, filed-get id job es, eq_iff k id)
filed-get id job ((k, sealed j) ∷ es) f g =
    ground (arith, filed-get id job es, eq_iff k id, eq_iff j.id k)

filed-set :
    (job : LatencyJobDetail) (entries : List (String × Stored LatencyJobDetail))
    → every is_filed entries ≡ true
    → every is_filed (map_set job.id (sealed job) entries) ≡ true
unfolding map_set
filed-set job [] f = ground (arith, eq_refl job.id)
filed-set job ((k, s) ∷ es) f = ground (arith, filed-set job es, eq_iff k job.id, eq_refl job.id)

sync_job-get :
    (code message : String) (now : ℕ) (k id : String) (db : Database)
    → every is_filed db.jobs ≡ true
    → map_get k (sync_job code message now (readable (map_get id db.jobs)) db).jobs
      ≡ (if id =ₛ k then settled code message now (map_get k db.jobs) else map_get k db.jobs)
unfolding persist_job terminalize_job
sync_job-get code message now k id db f = at (map_get id db.jobs) refl
  where
    at :
        (s : Option (Stored LatencyJobDetail))
        → map_get id db.jobs ≡ s
        → map_get k (sync_job code message now (readable s) db).jobs
          ≡ (if id =ₛ k then settled code message now (map_get k db.jobs) else map_get k db.jobs)
    at none g = ground (arith, g, eq_iff id k)
    at (some corrupt) g = ground (arith, g, eq_iff id k)
    at (some (sealed job)) g =
        let own = filed-get id job db.jobs f g in
        let put =
          map_get-map_set job.id k (sealed (terminalize_job code message now job)) db.jobs in
        ground (arith, g, own, put, eq_iff id k, eq_iff job.id k)

sync_job-filed :
    (code message : String) (now : ℕ) (job : Option LatencyJobDetail) (db : Database)
    → every is_filed db.jobs ≡ true
    → every is_filed (sync_job code message now job db).jobs ≡ true
unfolding persist_job
sync_job-filed code message now none db f = f
sync_job-filed code message now (some job) db f =
    ground (arith, filed-set (terminalize_job code message now job) db.jobs f)

pub sync_jobs-settled :
    (code message : String) (now : ℕ) (ids : List String) (k : String) (db : Database)
    → every is_filed db.jobs ≡ true
    → map_get k (sync_jobs code message now ids db).jobs
      ≡ (if includes k ids then settled code message now (map_get k db.jobs) else map_get k db.jobs)
unfolding sync_jobs includes
sync_jobs-settled code message now [] k db f = refl
sync_jobs-settled code message now (id ∷ ids) k db f =
    let job = readable (map_get id db.jobs) in
    ground (
      arith,
      sync_job-get code message now k id db f,
      settled-settled code message now (map_get k db.jobs),
      sync_jobs-settled code message now ids k (sync_job code message now job db)
          (sync_job-filed code message now job db f),
    )

-- Where every readable job is stored under its own id, no job that the payload names and that reads
-- after the end of a network execution has a target in flight.
pub sync_jobs_leaves_none_in_flight :
    (code message : String) (now : ℕ) (ids : List String) (k : String) (db : Database)
    (job : LatencyJobDetail)
    → every is_filed db.jobs ≡ true
    → includes k ids ≡ true
    → readable (map_get k (sync_jobs code message now ids db).jobs) ≡ some job
    → has_in_flight job.targets ≡ false
sync_jobs_leaves_none_in_flight code message now ids k db job f i h =
    settled_idle code message now (map_get k db.jobs) job
      (ground (arith, sync_jobs-settled code message now ids k db f))
