-- ===== src/Queue/Transition/Moves.antt =====
-- Two databases of which the second has rows that come from the first's, through the shapes of code.
use webperf_selfhosted.Base.{ℕ, ◌≡◌, refl, Bool, true, false, if◌then◌else◌}
use webperf_selfhosted.Queue.Types.{Database, Result, ok, thrown}
use webperf_selfhosted.Queue.Operation.{with_value}
use webperf_selfhosted.Queue.Transition.{Evolves, Evolution, done, next}
use webperf_selfhosted.Queue.Transition.Updates.{Evolution-append}

-- The rows of `after` come from those of `before`.
pub record Moves (now : ℕ) (before after : Database) : Type 0 where
  pub at : Evolution now before.execution_jobs after.execution_jobs

pub still : {now : ℕ} {db : Database} → Moves now db db
still = record { at = done }

pub Moves-same :
    {now : ℕ} {before after : Database}
    → after.execution_jobs ≡ before.execution_jobs
    → Moves now before after
Moves-same e = record { at = rw e done }

pub Moves-update :
    {now : ℕ} {before after : Database}
    → Evolves now before.execution_jobs after.execution_jobs
    → Moves now before after
Moves-update e = record { at = next done e }

pub Moves-trans : {now : ℕ} {a b c : Database} → Moves now a b → Moves now b c → Moves now a c
Moves-trans e f = record { at = Evolution-append e.at f.at }

-- Through a test, and through a value that may be thrown.
pub Moves-if :
    {A : Type 0} {now : ℕ} {db : Database} (b : Bool) (x y : A × Database)
    → (b ≡ true → Moves now db x.1)
    → (b ≡ false → Moves now db y.1)
    → Moves now db (if b then x else y).1
Moves-if true x y h k = h refl
Moves-if false x y h k = k refl

pub Moves-with :
    {A B : Type 0} {now : ℕ} {db : Database} (r : Result A) (f : A → Database → Result B × Database)
    (from : Database)
    → Moves now db from
    → ((a : A) → r ≡ ok a → Moves now db (f a from).1)
    → Moves now db (with_value r f from).1
Moves-with (thrown e) f from m h = m
Moves-with (ok a) f from m h = h a refl
