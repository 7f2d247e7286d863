-- ===== src/Queue/Transition.antt =====
-- The life of a queued execution as a step relation on its row, and of the table as rows that take
-- steps and rows that are new. Every operation of the queue is shown to move along these steps.
pub mod Selection
pub mod Updates
pub mod Moves
pub mod Calls
pub mod Claims
pub mod Inserts
use webperf_selfhosted.Base.{
  ℕ, ◌+◌, ◌<◌, ◌≤◌, ◌≡◌, String, Bool, true, false, Option, none, some, List, [], ◌∷◌, includes,
}
use webperf_selfhosted.Queue.Types.{ExecutionJobStatus, ExecutionJobError, ExecutionJobRow}
use webperf_selfhosted.Queue.Schema.{is_leased, is_terminal, is_valid_lease_owner, row_fits}
use webperf_selfhosted.Queue.Statements.{
  is_due, lease_live, ids_of, set_leased, set_running, set_renewed, set_completed, set_failed,
  set_cancelled, set_exhausted,
}

-- One step of a row at time `now`, with what must hold before it.
pub data RowStep (now : ℕ) : ExecutionJobRow → ExecutionJobRow → Type 0 where
  stay : (r : ExecutionJobRow) → RowStep now r r
  lease :
      (r : ExecutionJobRow) (owner : String) (expires_at : ℕ)
      → is_valid_lease_owner owner ≡ true
      → now < expires_at
      → is_due r now ≡ true
      → r.attempt_count < r.max_attempts
      → RowStep now r (set_leased owner expires_at now r)
  run :
      (r : ExecutionJobRow) (expires_at : ℕ)
      → now < expires_at
      → is_leased r.status ≡ true
      → lease_live r.lease_expires_at now ≡ true
      → RowStep now r (set_running expires_at now r)
  renew :
      (r : ExecutionJobRow) (expires_at : ℕ)
      → now < expires_at
      → is_leased r.status ≡ true
      → lease_live r.lease_expires_at now ≡ true
      → RowStep now r (set_renewed expires_at now r)
  complete :
      (r : ExecutionJobRow)
      → is_leased r.status ≡ true
      → lease_live r.lease_expires_at now ≡ true
      → RowStep now r (set_completed now r)
  give_up :
      (r : ExecutionJobRow) (available_at : ℕ) (error : ExecutionJobError)
      → is_leased r.status ≡ true
      → lease_live r.lease_expires_at now ≡ true
      → RowStep now r (set_failed ExecutionJobStatus.failed available_at error (some now) now r)
  retry :
      (r : ExecutionJobRow) (available_at : ℕ) (error : ExecutionJobError)
      → now ≤ available_at
      → is_leased r.status ≡ true
      → lease_live r.lease_expires_at now ≡ true
      → RowStep now r (set_failed ExecutionJobStatus.queued available_at error none now r)
  cancel :
      (r : ExecutionJobRow) → is_terminal r.status ≡ false → RowStep now r (set_cancelled now r)
  exhaust :
      (r : ExecutionJobRow) (error : ExecutionJobError)
      → is_due r now ≡ true
      → r.max_attempts ≤ r.attempt_count
      → RowStep now r (set_exhausted error now r)

-- A row as it is inserted.
pub record IsNew (r : ExecutionJobRow) : Type 0 where
  pub fits : row_fits r ≡ true
  pub queued : r.status ≡ ExecutionJobStatus.queued
  pub unattempted : r.attempt_count ≡ 0

-- The rows of the table after an update.
pub data Evolves (now : ℕ) : List ExecutionJobRow → List ExecutionJobRow → Type 0 where
  no_rows : Evolves now [] []
  row :
      {r u : ExecutionJobRow} {rs us : List ExecutionJobRow}
      → RowStep now r u
      → Evolves now rs us
      → Evolves now (r ∷ rs) (u ∷ us)

-- The rows after several statements: updates, and insertions of new rows under new ids.
pub data Evolution (now : ℕ) : List ExecutionJobRow → List ExecutionJobRow → Type 0 where
  done : {rs : List ExecutionJobRow} → Evolution now rs rs
  next :
      {rs us ws : List ExecutionJobRow}
      → Evolution now rs us
      → Evolves now us ws
      → Evolution now rs ws
  insert :
      {u : ExecutionJobRow} {rs us : List ExecutionJobRow}
      → Evolution now rs us
      → IsNew u
      → includes u.id (ids_of us) ≡ false
      → Evolution now rs (u ∷ us)
