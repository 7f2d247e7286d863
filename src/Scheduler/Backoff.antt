-- ===== src/Scheduler/Backoff.antt =====
-- The delays of the scheduler's loop.
use native.Mathlib.Nat.{mul_assoc, mul_comm, mul-le-mul_left, pow-le-pow_right}
use webperf_selfhosted.Base.{
  sym, ap, ◌∙◌, ℕ, ◌*◌, ◌^◌, ◌≤◌, ◌<◌, min, ◌≡◌, false, List, [], ◌∷◌, ltb, leb, zero, suc, arith,
  Bool-cases, inl, inr,
}
use webperf_selfhosted.Scheduler.{
  doublings, maximum_exponent, calculate_scheduler_poll_delay, Event, waited, dispatch_succeeded,
  dispatch_failed,
}

pow_succ_left : (n : ℕ) → 2 ^ suc n ≡ 2 * 2 ^ n
pow_succ_left n = omega arith

reach_suc : (reach n : ℕ) → reach * 2 ^ suc n ≡ reach * 2 * 2 ^ n
reach_suc reach n = ap (λ x. reach * x) (pow_succ_left n) ∙ sym (mul_assoc reach 2 (2 ^ n))

-- The doublings reach the limit where the fuel lets them.
doublings_reach :
    (fuel reach limit : ℕ)
    → limit ≤ reach * 2 ^ fuel
    → limit ≤ reach * 2 ^ doublings fuel reach limit
unfolding doublings
doublings_reach zero reach limit h = h
doublings_reach (suc n) reach limit h =
    let rest = doublings n (reach * 2) limit in
    let more = doublings_reach n (reach * 2) limit (omega (arith, h, reach_suc reach n)) in
    elim (Bool-cases (leb limit reach)) [
      | inl e ↦ rw (e, doublings) (let le : limit ≤ reach = ground (arith, e) in omega (arith, le))
      | inr e ↦ rw (e, doublings) (omega (arith, more, reach_suc reach rest))
    ]

-- Doublings grow past any number.
pow_exceeds : (n : ℕ) → suc n ≤ 2 ^ n
pow_exceeds zero = omega arith
pow_exceeds (suc n) = omega (arith, pow_exceeds n)

le_mul : (a m n : ℕ) → m ≤ n → m * a ≤ n * a
le_mul a m n h = omega (arith, mul-le-mul_left a h, mul_comm a m, mul_comm a n)

limit_reached : (poll limit : ℕ) → 0 < poll → limit ≤ poll * 2 ^ limit
limit_reached poll limit h = omega (arith, pow_exceeds limit, le_mul (2 ^ limit) 1 poll h)

capped :
    (poll limit k f : ℕ)
    → limit ≤ poll * 2 ^ k
    → min limit (poll * 2 ^ min f k) ≡ min limit (poll * 2 ^ f)
capped poll limit k f h = elim (Bool-cases (leb f k)) [
  | inl e ↦
      let le : f ≤ k = ground (arith, e) in ap (λ x. min limit (poll * 2 ^ x)) (omega (arith, le))
  | inr e ↦
      let le : k ≤ f = ground (arith, e) in
      let power : 2 ^ k ≤ 2 ^ f = pow-le-pow_right (omega arith) le in
      let more = mul-le-mul_left poll power in
      let least : min f k ≡ k = omega (arith, le) in
      ap (λ x. min limit (poll * 2 ^ x)) least ∙ omega (arith, h, more)
]

-- The delay after `failures` failures in a row is the poll interval doubled that often, and the
-- maximum at most: that the exponent is capped changes nothing. This holds where the interval is
-- positive and no longer than the maximum.
pub calculate_scheduler_poll_delay_doubles :
    (poll failures limit : ℕ)
    → 0 < poll
    → poll ≤ limit
    → calculate_scheduler_poll_delay poll failures limit ≡ min limit (poll * 2 ^ failures)
unfolding calculate_scheduler_poll_delay maximum_exponent
calculate_scheduler_poll_delay_doubles poll zero limit h k = omega (arith, h, k)
calculate_scheduler_poll_delay_doubles poll (suc n) limit h k =
    let more : ltb (suc n) 1 ≡ false = ground arith in
    rw more (
      capped poll limit (doublings limit poll limit) (suc n)
        (doublings_reach limit poll limit (limit_reached poll limit h)))

-- The waits among the events.
abbrev pub EveryWait : (ℕ → Type 0) → List Event → Type 0
EveryWait P [] = Unit
EveryWait P (waited d ∷ es) = P d × EveryWait P es
EveryWait P (dispatch_succeeded t c ∷ es) = EveryWait P es
EveryWait P (dispatch_failed ∷ es) = EveryWait P es
