-- ===== src/Report/Status/Progress.antt =====
-- The status of a job with targets in flight: that of the target furthest on its way.
use webperf_selfhosted.Base.{
  ℕ, ◌+◌, ◌≤◌, ◌<◌, ◌≡◌, refl, sym, ◌∙◌, Bool, true, false, not, ◌||◌, if◌then◌else◌, List, [], ◌∷◌,
  arith, ltb, count, every, any, All, any_weaken, All-any,
}
use webperf_selfhosted.Report.Types.{TargetStatus, JobStatus, LatencyJobTarget}
use webperf_selfhosted.Report.Status.{
  is_terminal_target_status, same_status, statuses_of, summarize_targets, derive_from_statuses,
  derive_job_status,
}

-- How far a target is on its way, from 1 for queued to 5 for measuring.
abbrev pub progress : TargetStatus → ℕ
progress TargetStatus.queued = 1
progress TargetStatus.slot_allocating = 2
progress TargetStatus.deploying = 3
progress TargetStatus.healthy = 4
progress TargetStatus.measuring = 5
progress _ = 0

-- A target's status, as that of a job.
abbrev pub as_job_status : TargetStatus → JobStatus
as_job_status TargetStatus.queued = JobStatus.queued
as_job_status TargetStatus.slot_allocating = JobStatus.slot_allocating
as_job_status TargetStatus.deploying = JobStatus.deploying
as_job_status TargetStatus.healthy = JobStatus.healthy
as_job_status TargetStatus.measuring = JobStatus.measuring
as_job_status TargetStatus.succeeded = JobStatus.succeeded
as_job_status TargetStatus.failed = JobStatus.failed

above : ℕ → TargetStatus → Bool
above n s = ltb n (progress s)

-- With no target past step n + 1 and none at it, none is past step n.
above_down :
    (n : ℕ) (s : TargetStatus) (ss : List TargetStatus)
    → ((u : TargetStatus) → above n u ≡ true → (above (n + 1) u || same_status s u) ≡ true)
    → any (above (n + 1)) ss ≡ false
    → any (same_status s) ss ≡ false
    → any (above n) ss ≡ false
above_down n s ss h = any_weaken (above (n + 1)) (same_status s) (above n) h ss

abbrev lead : List TargetStatus → TargetStatus
lead ss =
    if any (same_status TargetStatus.measuring) ss
    then TargetStatus.measuring
    else if any (same_status TargetStatus.healthy) ss
    then TargetStatus.healthy
    else if any (same_status TargetStatus.deploying) ss
    then TargetStatus.deploying
    else if any (same_status TargetStatus.slot_allocating) ss
    then TargetStatus.slot_allocating
    else TargetStatus.queued

-- Not all are terminal: then not all are succeeded or all failed, and one is at one of the five steps.
some_in_flight :
    (ss : List TargetStatus)
    → every is_terminal_target_status ss ≡ false
    → (every (same_status TargetStatus.succeeded) ss ≡ false)
      × (every (same_status TargetStatus.failed) ss ≡ false)
      × ((any (same_status TargetStatus.measuring) ss
            || any (same_status TargetStatus.healthy) ss
            || any (same_status TargetStatus.deploying) ss
            || any (same_status TargetStatus.slot_allocating) ss
            || any (same_status TargetStatus.queued) ss)
          ≡ true)
some_in_flight [] h = cc
some_in_flight (TargetStatus.queued ∷ ss) h = ground arith
some_in_flight (s ∷ ss) h = ground (arith, some_in_flight ss)

nothing_above_five : (ss : List TargetStatus) → any (above 5) ss ≡ false
unfolding above
nothing_above_five [] = refl
nothing_above_five (TargetStatus.queued ∷ ss) = nothing_above_five ss
nothing_above_five (s ∷ ss) = nothing_above_five ss

-- Where no target is at the steps past n, no target is past step n.
nothing_above :
    (ss : List TargetStatus)
    → let gone = λ (s : TargetStatus). any (same_status s) ss ≡ false in
      (gone TargetStatus.measuring → any (above 4) ss ≡ false)
      × (any (above 4) ss ≡ false → gone TargetStatus.healthy → any (above 3) ss ≡ false)
      × (any (above 3) ss ≡ false → gone TargetStatus.deploying → any (above 2) ss ≡ false)
      × (any (above 2) ss ≡ false → gone TargetStatus.slot_allocating → any (above 1) ss ≡ false)
unfolding above
nothing_above ss = (
  above_down 4 TargetStatus.measuring ss (λ u h. ground arith) (nothing_above_five ss),
  above_down 3 TargetStatus.healthy ss (λ u h. ground arith),
  above_down 2 TargetStatus.deploying ss (λ u h. ground arith),
  above_down 1 TargetStatus.slot_allocating ss (λ u h. ground arith),
)

most_advanced :
    (ss : List TargetStatus)
    → every is_terminal_target_status ss ≡ false
    → let t = lead ss in
      (derive_from_statuses ss ≡ as_job_status t)
      × (any (same_status t) ss ≡ true)
      × (any (above (progress t)) ss ≡ false)
      × (is_terminal_target_status t ≡ false)
unfolding derive_from_statuses
most_advanced ss h =
    let f = some_in_flight ss h in
    (
      ground (arith, f),
      ground (arith, f),
      ground (arith, f, nothing_above ss, nothing_above_five ss),
      ground arith,
    )

any_statuses :
    (p : TargetStatus → Bool) (ts : List LatencyJobTarget)
    → any p (statuses_of ts) ≡ any (λ t. p t.status) ts
any_statuses p [] = refl
any_statuses p (t ∷ ts) = ground (arith, any_statuses p ts)

not_above : (n : ℕ) (t : LatencyJobTarget) → above n t.status ≡ false → progress t.status ≤ n
unfolding above
not_above n t h = ground arith

in_flight :
    (ts : List LatencyJobTarget)
    → 0 < count (λ t. not (is_terminal_target_status t.status)) ts
    → every is_terminal_target_status (statuses_of ts) ≡ false
in_flight [] h = absurd (omega arith)
in_flight (t ∷ ts) h = ground (arith, in_flight ts)

derive_of_cons :
    (ts : List LatencyJobTarget)
    → every is_terminal_target_status (statuses_of ts) ≡ false
    → derive_job_status ts ≡ derive_from_statuses (statuses_of ts)
unfolding derive_job_status
derive_of_cons [] h = cc
derive_of_cons (t ∷ ts) h = refl

-- While some target is in flight, the status of the job is the status of one of the targets in
-- flight, and no target is further on its way.
pub derive_job_status-most_advanced :
    (ts : List LatencyJobTarget)
    → 0 < (summarize_targets ts).inflight
    → (t : TargetStatus) × (derive_job_status ts ≡ as_job_status t)
      × (is_terminal_target_status t ≡ false)
      × (any (λ u. same_status t u.status) ts ≡ true)
      × All (λ u. progress u.status ≤ progress t) ts
unfolding summarize_targets
derive_job_status-most_advanced ts h =
    let ss = statuses_of ts in
    let not_all = in_flight ts h in
    let m = most_advanced ss not_all in
    let t = lead ss in
    (
      t,
      derive_of_cons ts not_all ∙ m.0,
      m.3,
      sym (any_statuses (same_status t) ts) ∙ m.1,
      All-any _ (not_above (progress t)) ts (sym (any_statuses (above (progress t)) ts) ∙ m.2),
    )
