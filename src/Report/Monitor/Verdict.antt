-- ===== src/Report/Monitor/Verdict.antt =====
-- What the monitor's verdict says of the targets.
use webperf_selfhosted.Base.{
  ℕ, ◌+◌, ◌<◌, ◌≤◌, Bool, true, false, not, ◌&&◌, ◌||◌, Option, none, some, List, [], ◌∷◌, ltb,
  ◌==◌, length, count, arith, ◌≡◌, refl, ◌↔◌, ◌⊎◌, inl, inr, every, any, count-le-length, All,
}
use webperf_selfhosted.Report.Types.{LatencyJobTarget, MonitorPolicy, MonitorStatus}
use webperf_selfhosted.Report.Monitor.{
  is_target_successful, effective_policy, is_over, breached_count, worse, worst_from,
  evaluate_monitor_targets,
}

every_of_count :
    (p : LatencyJobTarget → Bool) (ts : List LatencyJobTarget)
    → (count (λ t. not (p t)) ts ≡ 0) ↔ (every p ts ≡ true)
every_of_count p [] = ground arith
every_of_count p (t ∷ ts) = ground (arith, every_of_count p ts)

any_of_count :
    (p : LatencyJobTarget → Bool) (ts : List LatencyJobTarget)
    → (0 < count p ts) ↔ (any p ts ≡ true)
any_of_count p [] = ground arith
any_of_count p (t ∷ ts) = ground (arith, any_of_count p ts)

-- The threshold that counts: one that is there and not 0.
abbrev pub is_breaching : Option MonitorPolicy → LatencyJobTarget → Bool
is_breaching policy t = elim (effective_policy policy).latency_threshold_ms [
  | none ↦ false
  | some limit ↦ ltb 0 limit && is_over limit t.latency_ms
]

breached_any :
    (limit : Option ℕ) (ts : List LatencyJobTarget)
    → (0 < breached_count limit ts) ↔ (
        any (λ t. elim limit [ none ↦ false | some l ↦ ltb 0 l && is_over l t.latency_ms ]) ts
        ≡ true)
unfolding breached_count
breached_any limit [] = ground arith
breached_any limit (t ∷ ts) = ground (arith, breached_any limit ts)

-- A run is failed exactly if a check failed, and healthy exactly if none failed, none is over the
-- threshold and nothing regressed; else it is a warning. Failed and healthy checks make up the total.
pub evaluate_monitor_targets_verdict :
    (policy : Option MonitorPolicy) (ts : List LatencyJobTarget) (regressed : ℕ)
    → let e = evaluate_monitor_targets policy ts regressed in
      ((e.status ≡ MonitorStatus.failed) ↔ (every is_target_successful ts ≡ false))
      × ((e.status ≡ MonitorStatus.healthy) ↔ (
          (every is_target_successful ts ≡ true)
          × (any (is_breaching policy) ts ≡ false)
          × (regressed ≡ 0)))
      × (e.healthy_checks + e.failed_checks ≡ e.total_checks)
      × (e.total_checks ≡ length ts)
unfolding evaluate_monitor_targets
evaluate_monitor_targets_verdict policy ts regressed =
    let b = breached_any (effective_policy policy).latency_threshold_ms ts in
    let v = every_of_count is_target_successful ts in
    ground
      (arith, b, v, count-le-length (λ (t : LatencyJobTarget). not (is_target_successful t)) ts)

-- `o` is at most `w`, where nothing is at most anything.
abbrev pub AtMost : Option ℕ → Option ℕ → Type 0
AtMost none w = Unit
AtMost (some a) none = ⊥
AtMost (some a) (some b) = a ≤ b

AtMost-trans : (a b c : Option ℕ) → AtMost a b → AtMost b c → AtMost a c
AtMost-trans none b c h k = tt
AtMost-trans (some a) (some b) (some c) h k = omega arith
AtMost-trans (some a) none c h k = absurd h
AtMost-trans (some a) (some b) none h k = absurd k

worse-AtMost : (w o : Option ℕ) → AtMost w (worse w o) × AtMost o (worse w o)
worse-AtMost none none = (tt, tt)
worse-AtMost none (some a) = (tt, omega arith)
worse-AtMost (some w) none = (omega arith, tt)
worse-AtMost (some w) (some a) = ground arith

worst_from-AtMost : (w : Option ℕ) (ts : List LatencyJobTarget) → AtMost w (worst_from w ts)
unfolding worst_from
worst_from-AtMost w [] = refl_AtMost w
  where
    refl_AtMost : (o : Option ℕ) → AtMost o o
    refl_AtMost none = tt
    refl_AtMost (some a) = omega arith
worst_from-AtMost w (t ∷ ts) =
    AtMost-trans w (worse w t.latency_ms) _ (worse-AtMost w t.latency_ms).0
      (worst_from-AtMost (worse w t.latency_ms) ts)

worst_from_bounds :
    (w : Option ℕ) (ts : List LatencyJobTarget)
    → All (λ t. AtMost t.latency_ms (worst_from w ts)) ts
unfolding worst_from
worst_from_bounds w [] = tt
worst_from_bounds w (t ∷ ts) = (
  AtMost-trans t.latency_ms (worse w t.latency_ms) _ (worse-AtMost w t.latency_ms).1
      (worst_from-AtMost (worse w t.latency_ms) ts),
  worst_from_bounds (worse w t.latency_ms) ts,
)

is_over-worst_from :
    (l : ℕ) (w : Option ℕ) (ts : List LatencyJobTarget)
    → is_over l (worst_from w ts) ≡ (is_over l w || any (λ t. is_over l t.latency_ms) ts)
unfolding worst_from
is_over-worst_from l none [] = refl
is_over-worst_from l (some w) [] = ground arith
is_over-worst_from l w (t ∷ ts) =
    ground (arith, is_over-worst_from l (worse w t.latency_ms) ts, over_worse w t.latency_ms)
  where
    over_worse : (w o : Option ℕ) → is_over l (worse w o) ≡ (is_over l w || is_over l o)
    over_worse none none = refl
    over_worse none (some a) = refl
    over_worse (some w) none = ground arith
    over_worse (some w) (some a) = ground arith

abbrev pub same_latency : Option ℕ → Option ℕ → Bool
same_latency (some a) (some b) = a == b
same_latency _ _ = false

worst_from_attained :
    (w : Option ℕ) (ts : List LatencyJobTarget)
    → (worst_from w ts ≡ w) ⊎ (any (λ t. same_latency t.latency_ms (worst_from w ts)) ts ≡ true)
unfolding worst_from
worst_from_attained w [] = inl refl
worst_from_attained w (t ∷ ts) = elim (worst_from_attained (worse w t.latency_ms) ts) [
  | inl e ↦ kept w t.latency_ms e
  | inr h ↦ inr (rw h (or_true _))
]
  where
    or_true : (b : Bool) → (b || true) ≡ true
    or_true true = refl
    or_true false = refl

    kept :
        (w o : Option ℕ)
        → worst_from (worse w o) ts ≡ worse w o
        → (worst_from (worse w o) ts ≡ w)
          ⊎ ((same_latency o (worst_from (worse w o) ts)
                || any (λ u. same_latency u.latency_ms (worst_from (worse w o) ts)) ts)
              ≡ true)
    kept w none e = inl e
    kept none (some a) e = inr (rw e (ground arith))
    kept (some w) (some a) e = ground (arith, e)

threshold_any :
    (limit w : Option ℕ) (ts : List LatencyJobTarget)
    → worst_from none ts ≡ w
    → ltb 0 (breached_count limit ts)
      ≡ elim limit [ none ↦ false | some l ↦ ltb 0 l && is_over l w ]
unfolding breached_count
threshold_any none w ts e = refl
threshold_any (some l) w ts e = ground (
  arith,
  is_over-worst_from l none ts,
  any_of_count (λ (t : LatencyJobTarget). is_over l t.latency_ms) ts,
)

-- The worst latency is at least that of every target, and is that of one unless no target has one;
-- the threshold counts as breached exactly if it is not 0 and the worst latency is over it.
pub evaluate_monitor_targets_worst :
    (policy : Option MonitorPolicy) (ts : List LatencyJobTarget) (regressed : ℕ)
    → let e = evaluate_monitor_targets policy ts regressed in
      All (λ t. AtMost t.latency_ms e.worst_latency_ms) ts
      × ((e.worst_latency_ms ≡ none)
          ⊎ (any (λ t. same_latency t.latency_ms e.worst_latency_ms) ts ≡ true))
      × (e.threshold_breached ≡ elim e.latency_threshold_ms [
        | none ↦ false
        | some limit ↦ ltb 0 limit && is_over limit e.worst_latency_ms
      ])
unfolding evaluate_monitor_targets
evaluate_monitor_targets_worst policy ts regressed = (
  worst_from_bounds none ts,
  worst_from_attained none ts,
  threshold_any (effective_policy policy).latency_threshold_ms (worst_from none ts) ts refl,
)
