-- ===== src/Queue/Transition/Selection.antt =====
-- Where the ids are unique, a statement that updates the rows of selected ids updates rows that the
-- selection's condition holds of.
use webperf_selfhosted.Base.{
  ℕ, String, ◌≡◌, refl, sym, ◌∙◌, Bool, true, false, ◌&&◌, ◌||◌, List, [], ◌∷◌, arith, any,
  any-filter, any-take, All, Unique, includes, eq_iff, take, filter,
}
use webperf_selfhosted.Queue.Types.{ExecutionJobRow}
use webperf_selfhosted.Queue.Statements.{
  has_id, ids_of, in_selection, select_ids, insert_ordered, order_rows,
}

includes-ids_of :
    (id : String) (rows : List ExecutionJobRow) → includes id (ids_of rows) ≡ any (has_id id) rows
unfolding includes
includes-ids_of id [] = refl
includes-ids_of id (r ∷ rs) = ground (arith, includes-ids_of id rs)

any-insert_ordered :
    (q : ExecutionJobRow → Bool) (r : ExecutionJobRow) (xs : List ExecutionJobRow)
    → any q (insert_ordered r xs) ≡ (q r || any q xs)
unfolding insert_ordered
any-insert_ordered q r [] = refl
any-insert_ordered q r (x ∷ xs) = ground (arith, any-insert_ordered q r xs)

any-order_rows :
    (q : ExecutionJobRow → Bool) (xs : List ExecutionJobRow) → any q (order_rows xs) ≡ any q xs
unfolding order_rows
any-order_rows q [] = refl
any-order_rows q (x ∷ xs) =
    ground (arith, any-order_rows q xs, any-insert_ordered q x (order_rows xs))

selected_any :
    (p : ExecutionJobRow → Bool) (n : ℕ) (rows : List ExecutionJobRow) (id : String)
    → includes id (select_ids p n rows) ≡ true
    → any (λ x. p x && has_id id x) rows ≡ true
unfolding select_ids
selected_any p n rows id h =
    let ordered = order_rows (filter p rows) in
    sym (any-filter p (has_id id) rows)
    ∙ sym (any-order_rows (has_id id) (filter p rows))
    ∙ any-take (has_id id) n ordered (sym (includes-ids_of id (take n ordered)) ∙ h)

absent :
    (p : ExecutionJobRow → Bool) (id : String) (rows : List ExecutionJobRow)
    → includes id (ids_of rows) ≡ false
    → any (λ x. p x && has_id id x) rows ≡ false
unfolding includes
absent p id [] h = refl
absent p id (r ∷ rs) h = ground (arith, absent p id rs)

-- The only row with the id of a row of the table is that row.
only_row :
    (p : ExecutionJobRow → Bool) (rows : List ExecutionJobRow)
    → Unique (ids_of rows)
    → All (λ r. any (λ x. p x && has_id r.id x) rows ≡ true → p r ≡ true) rows
unfolding includes
only_row p [] u = tt
only_row p (r ∷ rs) u =
    (λ h. ground (arith, absent p r.id rs u.0), later rs u.0 (only_row p rs u.1))
  where
    later :
        (us : List ExecutionJobRow)
        → includes r.id (ids_of us) ≡ false
        → All (λ w. any (λ x. p x && has_id w.id x) rs ≡ true → p w ≡ true) us
        → All (λ w. any (λ x. p x && has_id w.id x) (r ∷ rs) ≡ true → p w ≡ true) us
    later [] a h = tt
    later (w ∷ ws) a h =
        (λ k. ground (arith, h.0, eq_iff r.id w.id, eq_iff w.id r.id), later ws (ground arith) h.1)

pub selected :
    (p : ExecutionJobRow → Bool) (n : ℕ) (rows : List ExecutionJobRow)
    → Unique (ids_of rows)
    → All (λ r. in_selection (select_ids p n rows) r ≡ true → p r ≡ true) rows
unfolding in_selection
selected p n rows u = of_any rows (only_row p rows u)
  where
    of_any :
        (us : List ExecutionJobRow)
        → All (λ r. any (λ x. p x && has_id r.id x) rows ≡ true → p r ≡ true) us
        → All (λ r. includes r.id (select_ids p n rows) ≡ true → p r ≡ true) us
    of_any [] h = tt
    of_any (w ∷ ws) h = (λ k. h.0 (selected_any p n rows w.id k), of_any ws h.1)
