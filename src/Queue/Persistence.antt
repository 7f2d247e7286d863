-- ===== src/Queue/Persistence.antt =====
-- What becomes of a row over a call: it stays under its id, and a terminal row stays as it is.
use webperf_selfhosted.Base.{String, ◌≡◌, some, List}
use webperf_selfhosted.Queue.Types.{ExecutionJobRow}
use webperf_selfhosted.Queue.Statements.{get_execution_job_row}
use webperf_selfhosted.Queue.Soundness.{Grows}

-- The row under `id` that comes from `r`.
abbrev Later : ExecutionJobRow → String → List ExecutionJobRow → Type 0
Later r id rows = (u : ExecutionJobRow) × (get_execution_job_row id rows ≡ some u) × Grows r u
