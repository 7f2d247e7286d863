-- ===== src/Report/Status/Order.antt =====
-- The order of the targets does not matter.
use webperf_selfhosted.Base.{
  ◌≡◌, refl, not, List, [], ◌∷◌, Perm, Permᴰ, ∥∥₁_elim, arith, every-perm, any-perm, count-perm,
  length-perm, ap,
}
use webperf_selfhosted.Report.Types.{TargetStatus, JobStatus, LatencyJobTarget, LatencyJobSummary}
use webperf_selfhosted.Report.Status.{
  is_terminal_target_status, same_status, statuses_of, summarize_targets, derive_from_statuses,
  derive_job_status,
}

JobStatus-set : IsSet JobStatus
JobStatus-set = hlevel

LatencyJobSummary-set : IsSet LatencyJobSummary
LatencyJobSummary-set = hlevel

statuses_of-perm :
    {ts us : List LatencyJobTarget} → Permᴰ ts us → Permᴰ (statuses_of ts) (statuses_of us)
statuses_of-perm Permᴰ.nil = Permᴰ.nil
statuses_of-perm (Permᴰ.cons e h) =
    Permᴰ.cons (ap (λ (t : LatencyJobTarget). t.status) e) (statuses_of-perm h)
statuses_of-perm (Permᴰ.swap e f) =
    Permᴰ.swap (ap (λ (t : LatencyJobTarget). t.status) e)
      (ap (λ (t : LatencyJobTarget). t.status) f)
statuses_of-perm (Permᴰ.trans h k) = Permᴰ.trans (statuses_of-perm h) (statuses_of-perm k)

derive_from_statuses-perm :
    {ss us : List TargetStatus} → Permᴰ ss us → derive_from_statuses ss ≡ derive_from_statuses us
unfolding derive_from_statuses
derive_from_statuses-perm h = rw (
  every-perm (same_status TargetStatus.succeeded) h,
  every-perm (same_status TargetStatus.failed) h,
  every-perm is_terminal_target_status h,
  any-perm (same_status TargetStatus.measuring) h,
  any-perm (same_status TargetStatus.healthy) h,
  any-perm (same_status TargetStatus.deploying) h,
  any-perm (same_status TargetStatus.slot_allocating) h,
)

derive_of_length :
    (ts us : List LatencyJobTarget) → Permᴰ ts us → derive_job_status ts ≡ derive_job_status us
unfolding derive_job_status
derive_of_length [] [] h = refl
derive_of_length [] (u ∷ us) h = absurd (omega (arith, length-perm h))
derive_of_length (t ∷ ts) [] h = absurd (omega (arith, length-perm h))
derive_of_length (t ∷ ts) (u ∷ us) h = derive_from_statuses-perm (statuses_of-perm h)

summarize_of_perm :
    {ts us : List LatencyJobTarget} → Permᴰ ts us → summarize_targets ts ≡ summarize_targets us
unfolding summarize_targets
summarize_of_perm h = cc (
  length-perm h,
  count-perm (λ (t : LatencyJobTarget). same_status t.status TargetStatus.succeeded) h,
  count-perm (λ (t : LatencyJobTarget). same_status t.status TargetStatus.failed) h,
  count-perm (λ (t : LatencyJobTarget). not (is_terminal_target_status t.status)) h,
)

-- The targets of a job in another order give the same status and the same counts.
pub derive_job_status-perm :
    {ts us : List LatencyJobTarget}
    → Perm ts us
    → (derive_job_status ts ≡ derive_job_status us) × (summarize_targets ts ≡ summarize_targets us)
derive_job_status-perm {ts} {us} h = (
  ∥∥₁_elim h (JobStatus-set _ _) (derive_of_length ts us),
  ∥∥₁_elim h (LatencyJobSummary-set _ _) (λ d. summarize_of_perm d),
)
