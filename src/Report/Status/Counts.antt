-- ===== src/Report/Status/Counts.antt =====
-- The counts of a job's targets, and what its terminal statuses say of them.
use webperf_selfhosted.Base.{
  ◌+◌, ◌<◌, ◌≡◌, refl, ◌↔◌, ◌≢◌, Bool, true, false, not, List, [], ◌∷◌, arith, length, count, every,
  count-le-length,
}
use webperf_selfhosted.Report.Types.{TargetStatus, JobStatus, LatencyJobTarget}
use webperf_selfhosted.Report.Status.{
  is_terminal_target_status, same_status, statuses_of, summarize_targets, derive_from_statuses,
  derive_job_status,
}

counts_add :
    (ts : List LatencyJobTarget)
    → length ts
      ≡ count (λ t. same_status t.status TargetStatus.succeeded) ts
        + count (λ t. same_status t.status TargetStatus.failed) ts
        + count (λ t. not (is_terminal_target_status t.status)) ts
counts_add [] = omega arith
counts_add (t ∷ ts) = ground (arith, counts_add ts)

-- Every target is counted once: as succeeded, as failed or as in flight.
pub summarize_targets_total :
    (ts : List LatencyJobTarget)
    → let s = summarize_targets ts in
      (s.total ≡ s.succeeded + s.failed + s.inflight) × (s.total ≡ length ts)
unfolding summarize_targets
summarize_targets_total ts = (counts_add ts, refl)

every-count :
    (p : TargetStatus → Bool) (ts : List LatencyJobTarget)
    → (every p (statuses_of ts) ≡ true) ↔ (count (λ t. p t.status) ts ≡ length ts)
every-count p [] = ground arith
every-count p (t ∷ ts) =
    ground (arith, every-count p ts, count-le-length (λ (t : LatencyJobTarget). p t.status) ts)

succeeded_iff :
    (ss : List TargetStatus)
    → (derive_from_statuses ss ≡ JobStatus.succeeded)
      ↔ (every (same_status TargetStatus.succeeded) ss ≡ true)
unfolding derive_from_statuses
succeeded_iff ss = ground arith

failed_iff :
    (ss : List TargetStatus)
    → (derive_from_statuses ss ≡ JobStatus.failed) ↔ (
        (every (same_status TargetStatus.succeeded) ss ≡ false)
        × (every (same_status TargetStatus.failed) ss ≡ true))
unfolding derive_from_statuses
failed_iff ss = ground arith

partial_iff :
    (ss : List TargetStatus)
    → (derive_from_statuses ss ≡ JobStatus.partial) ↔ (
        (every (same_status TargetStatus.succeeded) ss ≡ false)
        × (every (same_status TargetStatus.failed) ss ≡ false)
        × (every is_terminal_target_status ss ≡ true))
unfolding derive_from_statuses
partial_iff ss = ground arith

same_count :
    (s : TargetStatus) (ts : List LatencyJobTarget)
    → count (λ t. same_status s t.status) ts ≡ count (λ t. same_status t.status s) ts
same_count s [] = refl
same_count s (t ∷ ts) = ground (arith, same_count s ts)

terminal_count :
    (ts : List LatencyJobTarget)
    → count (λ t. is_terminal_target_status t.status) ts
        + count (λ t. not (is_terminal_target_status t.status)) ts
      ≡ length ts
terminal_count [] = refl
terminal_count (t ∷ ts) = ground (arith, terminal_count ts)

-- The status of a job against its counts: queued if there is no target; succeeded or failed exactly
-- if every target of a job that has one is so; partial exactly if there are targets, none is in
-- flight, and neither count is the total.
pub derive_job_status-summary :
    (ts : List LatencyJobTarget)
    → let s = summarize_targets ts in
      ((derive_job_status ts ≡ JobStatus.succeeded) ↔ ((0 < s.total) × (s.succeeded ≡ s.total)))
      × ((derive_job_status ts ≡ JobStatus.failed) ↔ ((0 < s.total) × (s.failed ≡ s.total)))
      × ((derive_job_status ts ≡ JobStatus.partial)
          ↔ ((0 < s.total) × (s.inflight ≡ 0) × (s.succeeded ≢ s.total) × (s.failed ≢ s.total)))
unfolding summarize_targets derive_job_status
derive_job_status-summary [] = ground arith
derive_job_status-summary (t ∷ ts) =
    let all = t ∷ ts in
    let ss = statuses_of all in
    ground (
      arith,
      succeeded_iff ss,
      failed_iff ss,
      partial_iff ss,
      every-count (same_status TargetStatus.succeeded) all,
      every-count (same_status TargetStatus.failed) all,
      every-count is_terminal_target_status all,
      same_count TargetStatus.succeeded all,
      same_count TargetStatus.failed all,
      terminal_count all,
      counts_add all,
    )
