-- ===== src/Queue/Grants.antt =====
-- What a claim grants: which job, to whom, until when.
use webperf_selfhosted.Base.{
  ℕ, ◌+◌, ◌≤◌, String, ◌≡◌, sym, Bool, true, Option, some, List, [], ◌∷◌, arith, All, Bool-cases,
  inl, inr,
}
use webperf_selfhosted.Queue.Types.{ExecutionJobRow, ExecutionJobKind, ExecutionJob, ok}
use webperf_selfhosted.Queue.Statements.{
  is_claimable, get_execution_job_row, returning, first, set_leased,
}
use webperf_selfhosted.Queue.Operation.{get_lease_expires_at}
use webperf_selfhosted.Queue.Rows.{some-inj}
use webperf_selfhosted.Queue.Decoding.{Mirrors}

-- A returned row is an updated one that the condition holds of.
pub returning-first {κ} :
    (P : ExecutionJobRow → Type κ) (p : ExecutionJobRow → Bool)
    (set : ExecutionJobRow → ExecutionJobRow) (w : ExecutionJobRow) (rows : List ExecutionJobRow)
    → All P rows
    → first (returning p set rows) ≡ some w
    → (r : ExecutionJobRow) × (p r ≡ true) × (w ≡ set r) × P r
unfolding returning
returning-first P p set w [] a h = absurd (cc)
returning-first P p set w (r ∷ rs) a h = elim (Bool-cases (p r)) [
  | inl e ↦ (r, e, sym (some-inj (ground (arith, h, e))), a.0)
  | inr e ↦ returning-first P p set w rs a.1 (ground (arith, h, e))
]

-- What holds of the row that a claim of `owner` until `expires_at` grants, of the rows it is taken from and of the
-- rows after.
pub record IsGrant (owner : String) (expires_at : ℕ) (kind : Option ExecutionJobKind) (now : ℕ)
    (rows after : List ExecutionJobRow) (job : ExecutionJob) (r : ExecutionJobRow) : Type 0 where
  pub in_queue : get_execution_job_row r.id rows ≡ some r
  pub claimable : is_claimable kind now r ≡ true
  pub first : All (λ x. is_claimable kind now x ≡ true → r.available_at ≤ x.available_at) rows
  pub stored : get_execution_job_row r.id after ≡ some (set_leased owner expires_at now r)
  pub returned : Mirrors (set_leased owner expires_at now r) job

pub granted_until :
    (owner : String) (duration now : ℕ) {t : ℕ}
    → get_lease_expires_at owner duration now ≡ ok t
    → now + duration ≡ t
unfolding get_lease_expires_at
granted_until owner duration now h = ground (arith)
