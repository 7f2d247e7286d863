-- ===== src/Queue/Rows.antt =====
-- The search for a row by its id, over updates of the table.
use mathlib.Core.Path.{subst}
use webperf_selfhosted.Base.{
  includes, eq_iff, String, ◌≡◌, refl, sym, ◌∙◌, Bool, true, false, some, List, [], ◌∷◌, arith,
  if◌then◌else◌, any, All, Bool-cases, inl, inr,
}
use webperf_selfhosted.Queue.Types.{ExecutionJobRow}
use webperf_selfhosted.Queue.Statements.{ids_of, has_id, get_execution_job_row, update_where}

pub get-head :
    (id : String) (x : ExecutionJobRow) (rs : List ExecutionJobRow)
    → has_id id x ≡ true
    → get_execution_job_row id (x ∷ rs) ≡ some x
unfolding get_execution_job_row
get-head id x rs h = ground arith

pub get-tail :
    (id : String) (x : ExecutionJobRow) (rs : List ExecutionJobRow)
    → has_id id x ≡ false
    → get_execution_job_row id (x ∷ rs) ≡ get_execution_job_row id rs
unfolding get_execution_job_row
get-tail id x rs h = ground arith

pub some-inj : {r x : ExecutionJobRow} → some x ≡ some r → x ≡ r
some-inj e = cc

pub has_id-same : (id : String) (x y : ExecutionJobRow) → y.id ≡ x.id → has_id id y ≡ has_id id x
has_id-same id x y e = cc

-- An update that keeps ids, seen at one id.
pub get-update_where :
    (p : ExecutionJobRow → Bool) (set : ExecutionJobRow → ExecutionJobRow)
    → ((r : ExecutionJobRow) → (set r).id ≡ r.id)
    → (id : String) (r : ExecutionJobRow) (rows : List ExecutionJobRow)
    → get_execution_job_row id rows ≡ some r
    → get_execution_job_row id (update_where p set rows) ≡ some (if p r then set r else r)
unfolding update_where get_execution_job_row
get-update_where p set h id r [] g = absurd (cc)
get-update_where p set h id r (x ∷ rs) g = elim (Bool-cases (has_id id x)) [
  | inl e ↦
      let same : x ≡ r = some-inj (sym (get-head id x rs e) ∙ g) in
      get-head id (if p x then set x else x) (update_where p set rs)
        (has_id-same id x (if p x then set x else x) (kept (p x)) ∙ e)
      ∙ rw same refl
  | inr e ↦
      get-tail id (if p x then set x else x) (update_where p set rs)
        (has_id-same id x (if p x then set x else x) (kept (p x)) ∙ e)
      ∙ get-update_where p set h id r rs (sym (get-tail id x rs e) ∙ g)
]
  where
    kept : (b : Bool) → (if b then set x else x).id ≡ x.id
    kept true = h x
    kept false = refl

-- What holds of every row holds of the row that is found.
pub get-All {κ} :
    (P : ExecutionJobRow → Type κ) (id : String) (r : ExecutionJobRow) (rows : List ExecutionJobRow)
    → get_execution_job_row id rows ≡ some r
    → All P rows
    → P r
unfolding get_execution_job_row
get-All P id r [] g a = absurd (cc)
get-All P id r (x ∷ rs) g a = elim (Bool-cases (has_id id x)) [
  | inl e ↦ subst P (some-inj (sym (get-head id x rs e) ∙ g)) a.0
  | inr e ↦ get-All P id r rs (sym (get-tail id x rs e) ∙ g) a.1
]

-- An update that no row passes changes nothing.
pub update_where-none :
    (p : ExecutionJobRow → Bool) (set : ExecutionJobRow → ExecutionJobRow)
    (rows : List ExecutionJobRow)
    → any p rows ≡ false
    → update_where p set rows ≡ rows
unfolding update_where
update_where-none p set [] h = refl
update_where-none p set (r ∷ rs) h = ground (arith, update_where-none p set rs)

-- A row that is found has its id among those of the table.
pub get-includes :
    (id : String) (r : ExecutionJobRow) (rows : List ExecutionJobRow)
    → get_execution_job_row id rows ≡ some r
    → includes id (ids_of rows) ≡ true
unfolding get_execution_job_row includes
get-includes id r [] g = absurd (cc)
get-includes id r (x ∷ rs) g = ground (arith, get-includes id r rs)

-- An id of the table is not one that is new to it.
pub fresh-has_id :
    (id : String) (u : ExecutionJobRow) (ids : List String)
    → includes u.id ids ≡ false
    → includes id ids ≡ true
    → has_id id u ≡ false
fresh-has_id id u ids a b = elim (Bool-cases (has_id id u)) [
  | inr h ↦ h
  | inl h ↦ let e : u.id ≡ id = (eq_iff u.id id).0 h in absurd (ground arith)
]
