-- ===== src/Executor/Heartbeat/Deadline.antt =====
-- The worker's deadline: it works on a job only while its lease lasts.
use webperf_selfhosted.Base.{
  ℕ, ◌+◌, ◌≤◌, ◌<◌, ◌≡◌, refl, sym, ◌∙◌, ap, String, some, List, [], ◌∷◌, arith, All, Option-cases,
  inl, inr, map,
}
use webperf_selfhosted.Queue.Types.{ExecutionJobRow, ExecutionJob, Database, Result, ok, thrown}
use webperf_selfhosted.Queue.Schema.{parse_execution_job}
use webperf_selfhosted.Queue.Statements.{is_held_by, returning, first, set_renewed}
use webperf_selfhosted.Queue.Operation.{get_lease_expires_at, with_value}
use webperf_selfhosted.Queue.Lease.{update_held, renew_execution_job_lease}
use webperf_selfhosted.Queue.Transition.Updates.{everywhere}
use webperf_selfhosted.Queue.Decoding.{parse_execution_job-Mirrors}
use webperf_selfhosted.Queue.Grants.{returning-first, granted_until}
use webperf_selfhosted.Executor.Heartbeat.{
  RenewalError, Renewal, renewed, refused, Beat, stopped, beat, HeartbeatState, Lease, Heartbeat,
  beating, at_rest, lost, renewal_answered, heartbeat_step, renew_lease_from,
  renew_lease_until_stopped,
}

-- The time when the answer is there.
abbrev pub answered_at : Renewal → ℕ
answered_at (renewed completed_at owner status) = completed_at
answered_at (refused failed_at error) = failed_at

answered_deadline :
    (lease : Lease) (interval : ℕ) (s s' : HeartbeatState) (t : ℕ) (a : Renewal)
    → 1 ≤ interval
    → renewal_answered lease interval s t a ≡ beating s'
    → (answered_at a < s'.lease_deadline_ms)
      × (1 ≤ s'.next_renewal_delay_ms)
      × (s'.next_renewal_delay_ms ≤ interval)
answered_deadline lease interval s s' t (renewed c o st) i h = ground arith
answered_deadline lease interval s s' t (refused f e) i h = ground arith

-- While the heartbeat goes on, each renewal began before the deadline of the lease and was answered
-- before the deadline that then holds, and the next one follows in 1 ms to the heartbeat interval, if the interval
-- is positive.
pub heartbeat_step_deadline :
    (lease : Lease) (interval : ℕ) (s s' : HeartbeatState) (t : ℕ) (a : Renewal)
    → 1 ≤ interval
    → heartbeat_step lease interval s (beat t a) ≡ beating s'
    → (t < s.lease_deadline_ms)
      × (answered_at a < s'.lease_deadline_ms)
      × (1 ≤ s'.next_renewal_delay_ms)
      × (s'.next_renewal_delay_ms ≤ interval)
unfolding heartbeat_step
heartbeat_step_deadline lease interval s s' t a i h =
    ground (arith, answered_deadline lease interval s s' t a i)

-- After a renewal that failed for a time, the next one begins by the deadline.
pub heartbeat_step_retries_in_time :
    (lease : Lease) (interval : ℕ) (s s' : HeartbeatState) (t failed_at : ℕ) (e : RenewalError)
    → heartbeat_step lease interval s (beat t (refused failed_at e)) ≡ beating s'
    → (s'.lease_deadline_ms ≡ s.lease_deadline_ms)
      × (failed_at + s'.next_renewal_delay_ms ≤ s'.lease_deadline_ms)
unfolding heartbeat_step
heartbeat_step_retries_in_time lease interval s s' t failed_at e h = ground arith

-- What the queue returned for a renewal is leased until the duration from the time of the renewal.
renewed_until :
    (id owner : String) (duration now : ℕ) (db : Database) (job : ExecutionJob)
    → (renew_execution_job_lease id owner duration now db).0 ≡ ok (some job)
    → job.lease_expires_at ≡ some (now + duration)
unfolding renew_execution_job_lease update_held
renewed_until id owner duration now db job h = at (get_lease_expires_at owner duration now) refl h
  where
    at :
        (t : Result ℕ)
        → get_lease_expires_at owner duration now ≡ t
        → (with_value t
            (λ expires_at db₁.
              let (j, db') = update_held id owner now (set_renewed expires_at now) db₁ in
              (ok j, db'))
            db).0
          ≡ ok (some job)
        → job.lease_expires_at ≡ some (now + duration)
    at (thrown e) q k = absurd (cc)
    at (ok t) q k =
        let p = is_held_by id owner now in
        elim (Option-cases (first (returning p (set_renewed t now) db.execution_jobs))) [
          | inl n ↦ absurd (ground (arith, k, n))
          | inr (w, e) ↦
              let (r, held, same, u) =
                returning-first {0} (λ (x : ExecutionJobRow). Unit) p (set_renewed t now) w
                  db.execution_jobs (everywhere (λ x. tt) db.execution_jobs) e in
              let read : parse_execution_job w ≡ some job = ground (arith, k, e) in
              let m = parse_execution_job-Mirrors w job read in
              m.same_expiry
              ∙ ap (λ (x : ExecutionJobRow). x.lease_expires_at) same
              ∙ ap some (sym (granted_until owner duration now q))
        ]

-- Where the queue's clock is not behind the worker's when a renewal reaches it, the deadline that
-- the worker goes on with is no later than the expiry that the queue stored for the job.
pub heartbeat_deadline_is_leased :
    (lease : Lease) (interval : ℕ) (s s' : HeartbeatState) (id : String)
    (started_at now completed_at : ℕ) (db : Database) (job : ExecutionJob)
    → started_at ≤ now
    → (renew_execution_job_lease id lease.lease_owner lease.lease_duration_ms now db).0
      ≡ ok (some job)
    → heartbeat_step lease interval s
        (beat started_at (renewed completed_at job.lease_owner job.status))
      ≡ beating s'
    → (expiry : ℕ) × (job.lease_expires_at ≡ some expiry) × (s'.lease_deadline_ms ≤ expiry)
unfolding heartbeat_step
heartbeat_deadline_is_leased lease interval s s' id started_at now completed_at db job t r h = (
  now + lease.lease_duration_ms,
  renewed_until id lease.lease_owner lease.lease_duration_ms now db job r,
  ground arith,
)

-- The expiry that is stored for the job after a beat for which the queue stored `granted`, if it did.
abbrev pub expiry_after : ℕ → Beat × ℕ → ℕ
expiry_after stored (beat t (renewed c o st), granted) = granted
expiry_after stored (b, granted) = stored

abbrev pub last_expiry : ℕ → List (Beat × ℕ) → ℕ
last_expiry stored [] = stored
last_expiry stored (x ∷ xs) = last_expiry (expiry_after stored x) xs

-- The queue stored at least the lease's duration from the renewal's beginning.
abbrev pub Granted : Lease → Beat × ℕ → Type 0
Granted lease (beat t (renewed c o st), granted) = t + lease.lease_duration_ms ≤ granted
Granted lease (b, granted) = Unit

still_beating :
    (lease : Lease) (interval : ℕ) (h : Heartbeat) (s : HeartbeatState) (bs : List Beat)
    → renew_lease_from lease interval h bs ≡ beating s
    → (before : HeartbeatState) × (h ≡ beating before)
unfolding renew_lease_from
still_beating lease interval (beating b) s bs h = (b, refl)
still_beating lease interval at_rest s [] h = absurd (cc)
still_beating lease interval at_rest s (b ∷ bs) h = absurd (cc)
still_beating lease interval (lost r) s [] h = absurd (cc)
still_beating lease interval (lost r) s (b ∷ bs) h = absurd (cc)

deadline_step :
    (lease : Lease) (interval stored : ℕ) (s s' : HeartbeatState) (x : Beat × ℕ)
    → Granted lease x
    → s.lease_deadline_ms ≤ stored
    → heartbeat_step lease interval s x.0 ≡ beating s'
    → s'.lease_deadline_ms ≤ expiry_after stored x
unfolding heartbeat_step
deadline_step lease interval stored s s' (stopped, e) g le h = absurd (cc)
deadline_step lease interval stored s s' (beat t (renewed c o st), e) g le h = ground arith
deadline_step lease interval stored s s' (beat t (refused f err), e) g le h = ground arith

renew_lease_from-deadline :
    (lease : Lease) (interval stored : ℕ) (before s : HeartbeatState) (xs : List (Beat × ℕ))
    → All (Granted lease) xs
    → before.lease_deadline_ms ≤ stored
    → renew_lease_from lease interval (beating before) (map (λ x. x.0) xs) ≡ beating s
    → s.lease_deadline_ms ≤ last_expiry stored xs
unfolding renew_lease_from
renew_lease_from-deadline lease interval stored before s [] g le h = ground arith
renew_lease_from-deadline lease interval stored before s (x ∷ xs) g le h =
    let step = heartbeat_step lease interval before x.0 in
    let (next, e) = still_beating lease interval step s (map (λ x. x.0) xs) h in
    renew_lease_from-deadline lease interval (expiry_after stored x) next s xs g.1
      (deadline_step lease interval stored before next x g.0 le e)
      (ap (λ k. renew_lease_from lease interval k (map (λ x. x.0) xs)) (sym e) ∙ h)

-- Where the queue grants each successful renewal at least the lease's duration from the time the renewal
-- began, and granted the first lease up to the initial deadline, a worker that is still beating after any beats
-- has a deadline that is no later than the expiry that is stored for its job.
pub renew_lease_until_stopped_deadline :
    (lease : Lease) (interval initial stored : ℕ) (s : HeartbeatState) (xs : List (Beat × ℕ))
    → All (Granted lease) xs
    → initial ≤ stored
    → renew_lease_until_stopped lease interval initial (map (λ x. x.0) xs) ≡ beating s
    → s.lease_deadline_ms ≤ last_expiry stored xs
unfolding renew_lease_until_stopped
renew_lease_until_stopped_deadline lease interval initial stored s xs g le h =
    renew_lease_from-deadline lease interval stored _ s xs g le h
