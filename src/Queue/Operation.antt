-- ===== src/Queue/Operation.antt =====
-- apps/api/src/repository.ts: what the operations on the execution queue share. `now` is the clock's
-- reading.
use webperf_selfhosted.Base.{
  ℕ, ◌+◌, String, not, ◌||◌, Option, none, some, List, ltb, if◌then◌else◌,
}
use webperf_selfhosted.Queue.Types.{
  ExecutionJobRow, ExecutionJob, Database, Result, ok, thrown, invalid_lease_owner,
  invalid_lease_duration,
}
use webperf_selfhosted.Queue.Schema.{
  execution_lease_duration_min_ms, execution_lease_duration_max_ms, is_valid_lease_owner,
  parse_execution_job,
}
use webperf_selfhosted.Queue.Statements.{get_execution_job_row}

-- An operation's result and the database after it.
abbrev pub Operation : Type 0 → Type 0
Operation A = Database → Result A × Database

unfoldable pub get_lease_expires_at : String → ℕ → ℕ → Result ℕ
get_lease_expires_at owner duration now =
    if not (is_valid_lease_owner owner)
    then thrown invalid_lease_owner
    else if ltb duration execution_lease_duration_min_ms
        || ltb execution_lease_duration_max_ms duration
    then thrown invalid_lease_duration
    else ok (now + duration)

abbrev pub with_value : {A B : Type 0} → Result A → (A → Operation B) → Operation B
with_value (thrown e) f db = (thrown e, db)
with_value (ok a) f db = f a db

abbrev pub parsed : Option ExecutionJobRow → Option ExecutionJob
parsed none = none
parsed (some r) = parse_execution_job r

abbrev pub put_rows : List ExecutionJobRow → Database → Database
put_rows rows db = record db { execution_jobs = rows }

-- `getExecutionJob`
unfoldable pub get_execution_job : String → Database → Option ExecutionJob
get_execution_job id db = parsed (get_execution_job_row id db.execution_jobs)
