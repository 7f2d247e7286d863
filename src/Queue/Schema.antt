-- ===== src/Queue/Schema.antt =====
-- packages/contracts/src/execution.ts: the bounds and the schemas that the queue checks.
use webperf_selfhosted.Base.{
  ℕ, ◌*◌, String, Bool, true, false, not, ◌&&◌, ◌||◌, Option, none, some, List, [], ◌∷◌, ltb, leb,
  ◌==◌, if◌then◌else◌, every, codes, text_length,
}
use webperf_selfhosted.Queue.Types.{
  ExecutionJobStatus, ExecutionJobError, ExecutionJob, ExecutionJobRow, EnqueueExecutionJob, Stored,
  sealed, corrupt, Payload,
}

abbrev pub default_execution_retry_delay_ms : ℕ
default_execution_retry_delay_ms = 1000

abbrev pub execution_job_max_attempts : ℕ
execution_job_max_attempts = 20

abbrev pub execution_lease_owner_max_length : ℕ
execution_lease_owner_max_length = 160

abbrev pub execution_lease_duration_min_ms : ℕ
execution_lease_duration_min_ms = 1000

abbrev pub execution_lease_duration_max_ms : ℕ
execution_lease_duration_max_ms = 3600000

abbrev pub execution_retry_delay_max_ms : ℕ
execution_retry_delay_max_ms = 86400000

abbrev pub execution_availability_max_delay_ms : ℕ
execution_availability_max_delay_ms = 7 * 24 * 60 * 60 * 1000

-- `min(low).max(high)` of a text schema.
unfoldable pub has_length : ℕ → ℕ → String → Bool
has_length low high s = leb low (text_length s) && leb (text_length s) high

abbrev pub is_id_start : ℕ → Bool
is_id_start c =
    (leb b'A' c && leb c b'Z') || (leb b'a' c && leb c b'z') || (leb b'0' c && leb c b'9')

abbrev pub is_id_part : ℕ → Bool
is_id_part c = is_id_start c || c == b'.' || c == b'_' || c == b':' || c == b'-'

-- `/^[A-Za-z0-9][A-Za-z0-9._:-]*$/`
abbrev pub is_id_text : List ℕ → Bool
is_id_text [] = false
is_id_text (c ∷ cs) = is_id_start c && every is_id_part cs

-- boundedJobIdSchema of identifiers.ts
unfoldable pub is_bounded_job_id : String → Bool
unfolding has_length
is_bounded_job_id s = has_length 1 160 s && is_id_text (codes s)

unfoldable pub is_valid_lease_owner : String → Bool
unfolding has_length
is_valid_lease_owner s = has_length 1 execution_lease_owner_max_length s

-- executionJobErrorSchema
unfoldable pub is_valid_error : ExecutionJobError → Bool
unfolding has_length
is_valid_error e = has_length 1 120 e.code && has_length 1 1000 e.message

abbrev pub is_leased : ExecutionJobStatus → Bool
is_leased ExecutionJobStatus.leased = true
is_leased ExecutionJobStatus.running = true
is_leased _ = false

-- `isTerminalExecutionJob`
abbrev pub is_terminal : ExecutionJobStatus → Bool
is_terminal ExecutionJobStatus.succeeded = true
is_terminal ExecutionJobStatus.failed = true
is_terminal ExecutionJobStatus.cancelled = true
is_terminal _ = false

abbrev pub is_there {ℓ} : {A : Type ℓ} → Option A → Bool
is_there none = false
is_there (some a) = true

-- The lease metadata that a status allows: owner and expiry together, or neither.
abbrev pub lease_fits : ExecutionJobStatus → Option String → Option ℕ → Bool
lease_fits status owner expiry =
    if is_leased status
    then is_there owner && is_there expiry
    else not (is_there owner) && not (is_there expiry)

abbrev pub completion_fits : ExecutionJobStatus → Option ℕ → Bool
completion_fits status completed =
    if is_terminal status then is_there completed else not (is_there completed)

abbrev pub owner_fits : Option String → Bool
owner_fits none = true
owner_fits (some s) = is_valid_lease_owner s

-- The refinements of executionJobSchema on the columns that are stored in the clear. The table's
-- CHECK constraints are the same, less the shape of the ids and of the owner.
unfoldable pub row_fits : ExecutionJobRow → Bool
row_fits r =
    is_bounded_job_id r.id
    && is_bounded_job_id r.resource_id
    && owner_fits r.lease_owner
    && ltb 0 r.max_attempts
    && leb r.max_attempts execution_job_max_attempts
    && leb r.attempt_count r.max_attempts
    && lease_fits r.status r.lease_owner r.lease_expires_at
    && completion_fits r.status r.completed_at

-- The error column: absent, or a decodable error that its schema accepts.
abbrev pub parse_error : Option (Stored ExecutionJobError) → Option (Option ExecutionJobError)
parse_error none = some none
parse_error (some corrupt) = none
parse_error (some (sealed e)) = if is_valid_error e then some (some e) else none

abbrev pub decoded : ExecutionJobRow → Payload → Option ExecutionJobError → ExecutionJob
decoded r payload error = record {
  id = r.id;
  kind = r.kind;
  resource_id = r.resource_id;
  status = r.status;
  lease_owner = r.lease_owner;
  lease_expires_at = r.lease_expires_at;
  attempt_count = r.attempt_count;
  max_attempts = r.max_attempts;
  available_at = r.available_at;
  payload = payload;
  error = error;
  created_at = r.created_at;
  updated_at = r.updated_at;
  completed_at = r.completed_at;
}

abbrev pub decode_columns :
    ExecutionJobRow → Stored Payload → Option (Option ExecutionJobError) → Option ExecutionJob
decode_columns r corrupt error = none
decode_columns r (sealed payload) none = none
decode_columns r (sealed payload) (some error) =
    if row_fits r then some (decoded r payload error) else none

-- `null` for a row that does not decode; the warning that is logged then is left out.
unfoldable pub parse_execution_job : ExecutionJobRow → Option ExecutionJob
parse_execution_job r = decode_columns r r.payload_json (parse_error r.error_json)

-- enqueueExecutionJobSchema, with its default of 3 attempts
abbrev pub max_attempts_or_default : Option ℕ → ℕ
max_attempts_or_default none = 3
max_attempts_or_default (some n) = n

unfoldable pub is_valid_enqueue : EnqueueExecutionJob → Bool
is_valid_enqueue j =
    is_bounded_job_id j.id
    && is_bounded_job_id j.resource_id
    && ltb 0 (max_attempts_or_default j.max_attempts)
    && leb (max_attempts_or_default j.max_attempts) execution_job_max_attempts
