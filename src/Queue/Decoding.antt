-- ===== src/Queue/Decoding.antt =====
-- What a job that was read says of the row that it was read from.
use mathlib.Core.Path.{subst}
use webperf_selfhosted.Base.{
  ℕ, String, ◌≡◌, refl, sym, ◌∙◌, ap, Bool, true, false, Option, none, some, List, [], ◌∷◌, arith,
  Bool-cases, inl, inr,
}
use webperf_selfhosted.Queue.Types.{
  ExecutionJobRow, ExecutionJobError, ExecutionJob, Payload, Stored, sealed, corrupt,
}
use webperf_selfhosted.Queue.Schema.{
  parse_execution_job, parse_error, decode_columns, decoded, row_fits,
}
use webperf_selfhosted.Queue.Statements.{
  has_id, is_held_by, get_execution_job_row, returning, first,
}
use webperf_selfhosted.Queue.Rows.{get-head, get-tail, some-inj}

decode_columns-some :
    (r : ExecutionJobRow) (job : ExecutionJob) (p : Stored Payload)
    (e : Option (Option ExecutionJobError))
    → decode_columns r p e ≡ some job
    → (row_fits r ≡ true)
      × (payload : Payload) × (error : Option ExecutionJobError) × (job ≡ decoded r payload error)
decode_columns-some r job corrupt e h = absurd (cc)
decode_columns-some r job (sealed payload) none h = absurd (cc)
decode_columns-some r job (sealed payload) (some error) h = elim (Bool-cases (row_fits r)) [
  | inl f ↦ (f, payload, error, ground (arith))
  | inr f ↦ absurd (ground (arith))
]

-- The job has the columns of its row.
pub record Mirrors (r : ExecutionJobRow) (job : ExecutionJob) : Type 0 where
  pub fits : row_fits r ≡ true
  pub same_id : job.id ≡ r.id
  pub same_status : job.status ≡ r.status
  pub same_owner : job.lease_owner ≡ r.lease_owner
  pub same_expiry : job.lease_expires_at ≡ r.lease_expires_at
  pub same_attempts : job.attempt_count ≡ r.attempt_count
  pub same_max : job.max_attempts ≡ r.max_attempts
  pub same_available : job.available_at ≡ r.available_at
  pub same_kind : job.kind ≡ r.kind
  pub same_resource : job.resource_id ≡ r.resource_id

pub parse_execution_job-Mirrors :
    (r : ExecutionJobRow) (job : ExecutionJob) → parse_execution_job r ≡ some job → Mirrors r job
unfolding parse_execution_job
parse_execution_job-Mirrors r job h =
    let (f, payload, error, e) =
      decode_columns-some r job r.payload_json (parse_error r.error_json) h in
    record {
      fits = f;
      same_id = ap (λ x. x.id) e;
      same_status = ap (λ x. x.status) e;
      same_owner = ap (λ x. x.lease_owner) e;
      same_expiry = ap (λ x. x.lease_expires_at) e;
      same_attempts = ap (λ x. x.attempt_count) e;
      same_max = ap (λ x. x.max_attempts) e;
      same_available = ap (λ x. x.available_at) e;
      same_kind = ap (λ x. x.kind) e;
      same_resource = ap (λ x. x.resource_id) e;
    }

pub get-has_id :
    (id : String) (r : ExecutionJobRow) (rows : List ExecutionJobRow)
    → get_execution_job_row id rows ≡ some r
    → has_id id r ≡ true
unfolding get_execution_job_row
get-has_id id r [] g = absurd (cc)
get-has_id id r (x ∷ rs) g = elim (Bool-cases (has_id id x)) [
  | inl e ↦
      let same : x ≡ r = some-inj (sym (get-head id x rs e) ∙ g) in
      subst (λ z. has_id id z ≡ true) same e
  | inr e ↦ get-has_id id r rs (sym (get-tail id x rs e) ∙ g)
]

-- What a statement on one id returns is the row of that id, as it is after the update.
pub returning-get :
    (p : ExecutionJobRow → Bool) (set : ExecutionJobRow → ExecutionJobRow) (id : String)
    → ((x : ExecutionJobRow) → p x ≡ true → has_id id x ≡ true)
    → (r : ExecutionJobRow) (rows : List ExecutionJobRow) → get_execution_job_row id rows ≡ some r
    → p r ≡ true
    → first (returning p set rows) ≡ some (set r)
unfolding returning get_execution_job_row
returning-get p set id h r [] g e = absurd (cc)
returning-get p set id h r (x ∷ rs) g e = elim (Bool-cases (has_id id x)) [
  | inl k ↦ let same : x ≡ r = some-inj (sym (get-head id x rs k) ∙ g) in rw same (rw e refl)
  | inr k ↦
      let no : p x ≡ false = elim (Bool-cases (p x)) [
        | inl y ↦ absurd (ground (arith, h x y))
        | inr y ↦ y
      ] in
      rw no (returning-get p set id h r rs (sym (get-tail id x rs k) ∙ g) e)
]

pub held-has_id :
    (id owner : String) (now : ℕ) (x : ExecutionJobRow)
    → is_held_by id owner now x ≡ true
    → has_id id x ≡ true
unfolding is_held_by
held-has_id id owner now x h = ground (arith)
