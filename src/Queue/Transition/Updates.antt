-- ===== src/Queue/Transition/Updates.antt =====
-- The statements move along the steps.
use webperf_selfhosted.Base.{All}
use webperf_selfhosted.Queue.Transition.{next}
use webperf_selfhosted.Base.{
  ℕ, String, ◌≡◌, refl, Bool, true, false, List, [], ◌∷◌, arith, if◌then◌else◌,
}
use webperf_selfhosted.Queue.Types.{ExecutionJobRow}
use webperf_selfhosted.Queue.Schema.{is_leased}
use webperf_selfhosted.Queue.Statements.{
  has_id, ids_of, update_where, is_held_by, lease_live, owner_is,
}
use webperf_selfhosted.Queue.Transition.{
  RowStep, Evolves, no_rows, row, insert, stay, lease, run, renew, complete, give_up, retry, cancel,
  exhaust, Evolution, done,
}

-- An update whose every change is a step.
pub update_where-Evolves :
    (now : ℕ) (p : ExecutionJobRow → Bool) (set : ExecutionJobRow → ExecutionJobRow)
    (rows : List ExecutionJobRow)
    → All (λ r. p r ≡ true → RowStep now r (set r)) rows
    → Evolves now rows (update_where p set rows)
unfolding update_where
update_where-Evolves now p set [] h = no_rows
update_where-Evolves now p set (r ∷ rs) h =
    row (one (p r) refl) (update_where-Evolves now p set rs h.1)
  where
    one : (b : Bool) → p r ≡ b → RowStep now r (if b then set r else r)
    one true e = h.0 e
    one false e = stay r

pub everywhere {κ} :
    {P : ExecutionJobRow → Type κ}
    → ((r : ExecutionJobRow) → P r)
    → (rows : List ExecutionJobRow) → All P rows
everywhere h [] = tt
everywhere h (r ∷ rs) = (h r, everywhere h rs)

-- A row keeps its id.
pub RowStep-id : {now : ℕ} {r u : ExecutionJobRow} → RowStep now r u → u.id ≡ r.id
RowStep-id (stay r) = refl
RowStep-id (lease r owner t a b c d) = refl
RowStep-id (run r t a b c) = refl
RowStep-id (renew r t a b c) = refl
RowStep-id (complete r a b) = refl
RowStep-id (give_up r t e a b) = refl
RowStep-id (retry r t e a b c) = refl
RowStep-id (cancel r a) = refl
RowStep-id (exhaust r e a b) = refl

pub ids_of-update_where :
    (p : ExecutionJobRow → Bool) (set : ExecutionJobRow → ExecutionJobRow)
    → ((r : ExecutionJobRow) → (set r).id ≡ r.id)
    → (rows : List ExecutionJobRow) → ids_of (update_where p set rows) ≡ ids_of rows
unfolding update_where
ids_of-update_where p set h [] = refl
ids_of-update_where p set h (r ∷ rs) = ground (arith, h r, ids_of-update_where p set h rs)

pub held_row :
    (id owner : String) (now : ℕ) (r : ExecutionJobRow)
    → is_held_by id owner now r ≡ true
    → (has_id id r ≡ true)
      × (owner_is r.lease_owner owner ≡ true)
      × (is_leased r.status ≡ true)
      × (lease_live r.lease_expires_at now ≡ true)
unfolding is_held_by
held_row id owner now r h = ground arith

pub Evolution-append :
    {now : ℕ} {rs us ws : List ExecutionJobRow}
    → Evolution now rs us
    → Evolution now us ws
    → Evolution now rs ws
Evolution-append e done = e
Evolution-append e (next f g) = next (Evolution-append e f) g
Evolution-append e (insert f a b) = insert (Evolution-append e f) a b
