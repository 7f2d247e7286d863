-- ===== src/Queue/Ordering.antt =====
-- The order of the claim's selection: by the time from which a job is available, then the creation
-- time, then the id.
use Prim.Native.Nat.{compare, Ordering}
use native.Mathlib.Omega.{compare-lt, compare-eq, compare-gt}
use webperf_selfhosted.Base.{
  ℕ, ◌≤◌, ◌≡◌, refl, Bool, true, false, List, [], ◌∷◌, arith, if◌then◌else◌, All,
}
use webperf_selfhosted.Queue.Types.{ExecutionJobRow}
use webperf_selfhosted.Queue.Statements.{before, insert_ordered, order_rows}

either : (c : Bool) (x y : ℕ) → x ≡ y → (if c then x else y) ≤ (if c then y else x)
either c x y e = ground (arith)

-- What the order says of the availability of two rows.
pub before-available :
    (a b : ExecutionJobRow)
    → (if before a b then a.available_at else b.available_at)
      ≤ (if before a b then b.available_at else a.available_at)
unfolding before
before-available a b = at (compare a.available_at b.available_at) refl
  where
    at :
        (o : Ordering)
        → compare a.available_at b.available_at ≡ o
        → (if before a b then a.available_at else b.available_at)
          ≤ (if before a b then b.available_at else a.available_at)
    at Ordering.lt e = let h = compare-lt a.available_at b.available_at e in ground (arith, e)
    at Ordering.gt e = let h = compare-gt a.available_at b.available_at e in ground (arith, e)
    at Ordering.eq e =
        let h = compare-eq a.available_at b.available_at e in
        either (before a b) a.available_at b.available_at h

-- No row of the list is available before `t`.
abbrev pub NotEarlier : ℕ → List ExecutionJobRow → Type 0
NotEarlier t = All (λ x. t ≤ x.available_at)

abbrev pub HeadFirst : List ExecutionJobRow → Type 0
HeadFirst [] = Unit
HeadFirst (h ∷ t) = NotEarlier h.available_at t

NotEarlier-weaken :
    (s t : ℕ) (rows : List ExecutionJobRow) → s ≤ t → NotEarlier t rows → NotEarlier s rows
NotEarlier-weaken s t [] h a = tt
NotEarlier-weaken s t (r ∷ rs) h a = (omega (arith, h, a.0), NotEarlier-weaken s t rs h a.1)

module _ {κ} (P : ExecutionJobRow → Type κ) where
  All-insert_ordered :
      (r : ExecutionJobRow) (xs : List ExecutionJobRow)
      → P r
      → All P xs
      → All P (insert_ordered r xs)
  unfolding insert_ordered
  All-insert_ordered r [] p a = (p, tt)
  All-insert_ordered r (x ∷ xs) p a = ground (arith, All-insert_ordered r xs p a.1)

  insert_ordered-All :
      (r : ExecutionJobRow) (xs : List ExecutionJobRow)
      → All P (insert_ordered r xs)
      → P r × All P xs
  unfolding insert_ordered
  insert_ordered-All r [] a = a
  insert_ordered-All r (x ∷ xs) a = at (before r x) a (insert_ordered-All r xs)
    where
      at :
          (c : Bool)
          → All P (if c then r ∷ x ∷ xs else x ∷ insert_ordered r xs)
          → (All P (insert_ordered r xs) → P r × All P xs)
          → P r × All P (x ∷ xs)
      at true a more = a
      at false a more = let (p, rest) = more a.1 in (p, (a.0, rest))

  pub All-order_rows : (xs : List ExecutionJobRow) → All P xs → All P (order_rows xs)
  unfolding order_rows
  All-order_rows [] a = tt
  All-order_rows (r ∷ rs) a = All-insert_ordered r (order_rows rs) a.0 (All-order_rows rs a.1)

  pub order_rows-All : (xs : List ExecutionJobRow) → All P (order_rows xs) → All P xs
  unfolding order_rows
  order_rows-All [] a = tt
  order_rows-All (r ∷ rs) a =
      let (p, rest) = insert_ordered-All r (order_rows rs) a in (p, order_rows-All rs rest)

insert_ordered-HeadFirst :
    (r : ExecutionJobRow) (xs : List ExecutionJobRow)
    → HeadFirst xs
    → HeadFirst (insert_ordered r xs)
unfolding insert_ordered
insert_ordered-HeadFirst r [] h = tt
insert_ordered-HeadFirst r (x ∷ xs) h = at (before r x) refl
  where
    at : (c : Bool) → before r x ≡ c → HeadFirst (if c then r ∷ x ∷ xs else x ∷ insert_ordered r xs)
    at true e =
        let le : r.available_at ≤ x.available_at = ground (arith, e, before-available r x) in
        (le, NotEarlier-weaken r.available_at x.available_at xs le h)
    at false e =
        let le : x.available_at ≤ r.available_at = ground (arith, e, before-available r x) in
        All-insert_ordered (λ w. x.available_at ≤ w.available_at) r xs le h

-- The head of the ordered rows is available no later than any of them.
pub order_rows-HeadFirst : (xs : List ExecutionJobRow) → HeadFirst (order_rows xs)
unfolding order_rows
order_rows-HeadFirst [] = tt
order_rows-HeadFirst (r ∷ rs) = insert_ordered-HeadFirst r (order_rows rs) (order_rows-HeadFirst rs)
