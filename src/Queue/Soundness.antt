-- ===== src/Queue/Soundness.antt =====
-- What holds of every database that calls lead to, and what no call changes.
use mathlib.Core.Path.{subst}
use webperf_selfhosted.Base.{ℕ, ◌≤◌, ◌≡◌, refl, sym, ◌∙◌, true, List, arith, All, Unique}
use webperf_selfhosted.Queue.Types.{ExecutionJobRow, Database}
use webperf_selfhosted.Queue.Schema.{is_terminal, row_fits}
use webperf_selfhosted.Queue.Statements.{ids_of}
use webperf_selfhosted.Queue.Transition.{
  RowStep, stay, lease, run, renew, complete, give_up, retry, cancel, exhaust, Evolves, no_rows,
  row, Evolution, done, next, insert,
}
use webperf_selfhosted.Queue.Transition.Updates.{RowStep-id}
use webperf_selfhosted.Queue.Transition.Inserts.{step-Moves}
use webperf_selfhosted.Queue.Run.{Reachable, start_empty, after}

RowStep-fits :
    {now : ℕ} {r u : ExecutionJobRow} → RowStep now r u → row_fits r ≡ true → row_fits u ≡ true
unfolding row_fits
RowStep-fits (stay r) f = f
RowStep-fits (lease r owner t a b c d) f = ground arith
RowStep-fits (run r t a b c) f = ground arith
RowStep-fits (renew r t a b c) f = ground arith
RowStep-fits (complete r a b) f = ground arith
RowStep-fits (give_up r t e a b) f = ground arith
RowStep-fits (retry r t e a b c) f = ground arith
RowStep-fits (cancel r a) f = ground arith
RowStep-fits (exhaust r e a b) f = ground arith

-- Every row satisfies the constraints of the schema, and no two have one id.
pub record IsSound (rows : List ExecutionJobRow) : Type 0 where
  pub fits : All (λ r. row_fits r ≡ true) rows
  pub unique : Unique (ids_of rows)

Evolves-fits :
    {now : ℕ} {rs us : List ExecutionJobRow}
    → Evolves now rs us
    → All (λ r. row_fits r ≡ true) rs
    → All (λ r. row_fits r ≡ true) us
Evolves-fits no_rows f = tt
Evolves-fits (row s e) f = (RowStep-fits s f.0, Evolves-fits e f.1)

Evolves-ids : {now : ℕ} {rs us : List ExecutionJobRow} → Evolves now rs us → ids_of us ≡ ids_of rs
Evolves-ids no_rows = refl
Evolves-ids (row s e) = cc (RowStep-id s, Evolves-ids e)

Evolution-IsSound :
    {now : ℕ} {rs us : List ExecutionJobRow} → Evolution now rs us → IsSound rs → IsSound us
Evolution-IsSound done s = s
Evolution-IsSound (next e f) s =
    let t = Evolution-IsSound e s in
    record { fits = Evolves-fits f t.fits; unique = subst Unique (sym (Evolves-ids f)) t.unique }
Evolution-IsSound (insert e n fresh) s =
    let t = Evolution-IsSound e s in record { fits = (n.fits, t.fits); unique = (fresh, t.unique) }

-- In every database that calls lead to, each row satisfies the schema's constraints (attempts at
-- most the maximum of 1 to 20, owner and expiry exactly while leased, completion exactly when
-- terminal, bounded ids) and no two rows have one id.
pub Reachable-IsSound : {db : Database} → Reachable db → IsSound db.execution_jobs
Reachable-IsSound start_empty = record { fits = tt; unique = tt }
Reachable-IsSound (after {db = db} call now r) =
    let s = Reachable-IsSound r in Evolution-IsSound (step-Moves call now db s.unique).at s

-- What stays of a row, and its attempts, which do not fall.
pub record Grows (r u : ExecutionJobRow) : Type 0 where
  pub same_id : u.id ≡ r.id
  pub same_kind : u.kind ≡ r.kind
  pub same_resource : u.resource_id ≡ r.resource_id
  pub same_max : u.max_attempts ≡ r.max_attempts
  pub same_payload : u.payload_json ≡ r.payload_json
  pub same_created : u.created_at ≡ r.created_at
  pub attempts : r.attempt_count ≤ u.attempt_count
  pub final : is_terminal r.status ≡ true → u ≡ r

pub RowStep-Grows : {now : ℕ} {r u : ExecutionJobRow} → RowStep now r u → Grows r u
RowStep-Grows (stay r) = ground arith
RowStep-Grows (lease r owner t a b c d) = ground arith
RowStep-Grows (run r t a b c) = ground arith
RowStep-Grows (renew r t a b c) = ground arith
RowStep-Grows (complete r a b) = ground arith
RowStep-Grows (give_up r t e a b) = ground arith
RowStep-Grows (retry r t e a b c) = ground arith
RowStep-Grows (cancel r a) = ground arith
RowStep-Grows (exhaust r e a b) = ground arith

pub Grows-trans : {r u w : ExecutionJobRow} → Grows r u → Grows u w → Grows r w
Grows-trans {r} {u} {w} g h = record {
  same_id = h.same_id ∙ g.same_id;
  same_kind = h.same_kind ∙ g.same_kind;
  same_resource = h.same_resource ∙ g.same_resource;
  same_max = h.same_max ∙ g.same_max;
  same_payload = h.same_payload ∙ g.same_payload;
  same_created = h.same_created ∙ g.same_created;
  attempts = omega (arith, g.attempts, h.attempts);
  final = λ t.
      h.final (subst (λ (x : ExecutionJobRow). is_terminal x.status ≡ true) (sym (g.final t)) t)
      ∙ g.final t;
}
