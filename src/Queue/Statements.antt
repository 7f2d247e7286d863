-- ===== src/Queue/Statements.antt =====
-- The prepared statements on `execution_jobs`, as functions on the table's rows.
use Prim.Native.Nat.{compare, Ordering}
use Prim.Native.String.{compare as compare_text}
use webperf_selfhosted.Base.{
  ℕ, ◌+◌, String, Bool, true, false, not, ◌&&◌, ◌||◌, Option, none, some, List, [], ◌∷◌, ltb, leb,
  if◌then◌else◌, ◌=ₛ◌, take, filter, includes,
}
use webperf_selfhosted.Queue.Types.{
  ExecutionJobKind, network_probe, browser_audit, webhook_delivery, ExecutionJobStatus,
  ExecutionJobError, ExecutionJobRow, Stored,
}
use webperf_selfhosted.Queue.Schema.{is_leased, is_terminal}

abbrev pub same_kind : ExecutionJobKind → ExecutionJobKind → Bool
same_kind network_probe network_probe = true
same_kind browser_audit browser_audit = true
same_kind webhook_delivery webhook_delivery = true
same_kind _ _ = false

-- `? IS NULL OR kind = ?`
abbrev pub kind_matches : Option ExecutionJobKind → ExecutionJobKind → Bool
kind_matches none kind = true
kind_matches (some wanted) kind = same_kind kind wanted

abbrev pub is_queued : ExecutionJobStatus → Bool
is_queued ExecutionJobStatus.queued = true
is_queued _ = false

-- `lease_expires_at <= now`, which NULL does not pass
abbrev pub lease_over : Option ℕ → ℕ → Bool
lease_over none now = false
lease_over (some t) now = leb t now

-- `lease_expires_at > now`
abbrev pub lease_live : Option ℕ → ℕ → Bool
lease_live none now = false
lease_live (some t) now = ltb now t

-- `lease_owner = ?`
abbrev pub owner_is : Option String → String → Bool
owner_is none owner = false
owner_is (some s) owner = s =ₛ owner

-- Queued and due, or leased with the lease run out.
abbrev pub is_due : ExecutionJobRow → ℕ → Bool
is_due r now =
    (is_queued r.status && leb r.available_at now)
    || (is_leased r.status && lease_over r.lease_expires_at now)

unfoldable pub is_claimable : Option ExecutionJobKind → ℕ → ExecutionJobRow → Bool
is_claimable kind now r =
    kind_matches kind r.kind && ltb r.attempt_count r.max_attempts && is_due r now

unfoldable pub is_exhausted : Option ExecutionJobKind → ℕ → ExecutionJobRow → Bool
is_exhausted kind now r =
    leb r.max_attempts r.attempt_count && kind_matches kind r.kind && is_due r now

abbrev pub has_id : String → ExecutionJobRow → Bool
has_id id r = r.id =ₛ id

-- The WHERE of the statements that need the live lease of its owner.
unfoldable pub is_held_by : String → String → ℕ → ExecutionJobRow → Bool
is_held_by id owner now r =
    has_id id r
    && owner_is r.lease_owner owner
    && is_leased r.status
    && lease_live r.lease_expires_at now

-- `UPDATE … SET … WHERE …`
unfoldable pub update_where :
    (ExecutionJobRow → Bool)
    → (ExecutionJobRow → ExecutionJobRow)
    → List ExecutionJobRow
    → List ExecutionJobRow
update_where p set [] = []
update_where p set (r ∷ rs) = (if p r then set r else r) ∷ update_where p set rs

-- `RETURNING *`
unfoldable pub returning :
    (ExecutionJobRow → Bool)
    → (ExecutionJobRow → ExecutionJobRow)
    → List ExecutionJobRow
    → List ExecutionJobRow
returning p set [] = []
returning p set (r ∷ rs) = let rest = returning p set rs in if p r then set r ∷ rest else rest

abbrev pub first {ℓ} : {A : Type ℓ} → List A → Option A
first [] = none
first (x ∷ xs) = some x

-- `SELECT * … WHERE id = ? LIMIT 1`
unfoldable pub get_execution_job_row : String → List ExecutionJobRow → Option ExecutionJobRow
get_execution_job_row id [] = none
get_execution_job_row id (r ∷ rs) =
    let rest = get_execution_job_row id rs in if has_id id r then some r else rest

-- `ORDER BY available_at ASC, created_at ASC, id ASC`: `a` does not come after `b`.
unfoldable pub before : ExecutionJobRow → ExecutionJobRow → Bool
before a b = elim (compare a.available_at b.available_at) [
  | Ordering.lt ↦ true
  | Ordering.gt ↦ false
  | Ordering.eq ↦ elim (compare a.created_at b.created_at) [
    | Ordering.lt ↦ true
    | Ordering.gt ↦ false
    | Ordering.eq ↦ elim (compare_text a.id b.id) [ Ordering.gt ↦ false | _ ↦ true ]
  ]
]

unfoldable pub insert_ordered : ExecutionJobRow → List ExecutionJobRow → List ExecutionJobRow
insert_ordered r [] = r ∷ []
insert_ordered r (x ∷ xs) = if before r x then r ∷ x ∷ xs else x ∷ insert_ordered r xs

unfoldable pub order_rows : List ExecutionJobRow → List ExecutionJobRow
unfolding insert_ordered before
order_rows [] = []
order_rows (r ∷ rs) = insert_ordered r (order_rows rs)

abbrev pub ids_of : List ExecutionJobRow → List String
ids_of [] = []
ids_of (r ∷ rs) = r.id ∷ ids_of rs

-- `SELECT id … WHERE p ORDER BY … LIMIT n`
unfoldable pub select_ids : (ExecutionJobRow → Bool) → ℕ → List ExecutionJobRow → List String
unfolding order_rows
select_ids p limit rows = ids_of (take limit (order_rows (filter p rows)))

-- The SET clauses.
abbrev pub set_leased : String → ℕ → ℕ → ExecutionJobRow → ExecutionJobRow
set_leased owner expires_at now r = record r {
  status = ExecutionJobStatus.leased;
  lease_owner = some owner;
  lease_expires_at = some expires_at;
  attempt_count = r.attempt_count + 1;
  started_at = some now;
  updated_at = now;
  completed_at = none;
}

abbrev pub set_running : ℕ → ℕ → ExecutionJobRow → ExecutionJobRow
set_running expires_at now r = record r {
  status = ExecutionJobStatus.running;
  lease_expires_at = some expires_at;
  updated_at = now;
}

abbrev pub set_renewed : ℕ → ℕ → ExecutionJobRow → ExecutionJobRow
set_renewed expires_at now r = record r { lease_expires_at = some expires_at; updated_at = now }

abbrev pub set_completed : ℕ → ExecutionJobRow → ExecutionJobRow
set_completed now r = record r {
  status = ExecutionJobStatus.succeeded;
  lease_owner = none;
  lease_expires_at = none;
  error_json = none;
  updated_at = now;
  completed_at = some now;
}

abbrev pub set_failed :
    ExecutionJobStatus → ℕ → ExecutionJobError → Option ℕ → ℕ → ExecutionJobRow → ExecutionJobRow
set_failed status available_at error completed_at now r = record r {
  status = status;
  lease_owner = none;
  lease_expires_at = none;
  started_at = none;
  available_at = available_at;
  error_json = some (Stored.sealed error);
  completed_at = completed_at;
  updated_at = now;
}

abbrev pub set_cancelled : ℕ → ExecutionJobRow → ExecutionJobRow
set_cancelled now r = record r {
  status = ExecutionJobStatus.cancelled;
  lease_owner = none;
  lease_expires_at = none;
  updated_at = now;
  completed_at = some now;
}

abbrev pub set_exhausted : ExecutionJobError → ℕ → ExecutionJobRow → ExecutionJobRow
set_exhausted error now r = record r {
  status = ExecutionJobStatus.failed;
  lease_owner = none;
  lease_expires_at = none;
  error_json = some (Stored.sealed error);
  updated_at = now;
  completed_at = some now;
}

abbrev pub execution_exhaustion_finalization_batch_size : ℕ
execution_exhaustion_finalization_batch_size = 50

-- The rows that the exhaustion statement updates.
unfoldable pub in_selection : List String → ExecutionJobRow → Bool
in_selection ids r = includes r.id ids

abbrev pub is_cancellable : String → ExecutionJobRow → Bool
is_cancellable id r = has_id id r && not (is_terminal r.status)
