-- ===== src/Executor/Heartbeat.antt =====
-- renewLeaseUntilStopped of apps/executor/src/runner.ts, over the beats that take place. All times
-- are readings of the worker's clock.
pub mod Deadline
use webperf_selfhosted.Base.{
  ℕ, ◌+◌, ◌-◌, ◌/◌, ◌≤◌, ◌<◌, min, max, String, Bool, true, false, not, ◌&&◌, ◌||◌, Option, none,
  some, List, [], ◌∷◌, ltb, leb, ◌==◌, if◌then◌else◌, ◌=ₛ◌,
}
use webperf_selfhosted.Queue.Types.{ExecutionJobStatus}
use webperf_selfhosted.Queue.Schema.{is_leased}
use webperf_selfhosted.Queue.Statements.{owner_is}

-- What a renewal throws: an error of the API client, with the status of the response if there was
-- one, or any other.
pub data RenewalError : Type 0 where
  api_error : Option ℕ → RenewalError
  other_error : RenewalError

unfoldable pub is_definitive_lease_renewal_error : RenewalError → Bool
is_definitive_lease_renewal_error other_error = true
is_definitive_lease_renewal_error (api_error none) = false
is_definitive_lease_renewal_error (api_error (some status)) =
    not (status == 408) && not (status == 429) && ltb status 500

-- The answer of `client.renew`, and the time when it is there.
pub data Renewal : Type 0 where
  renewed : (completed_at : ℕ) (lease_owner : Option String) (status : ExecutionJobStatus) → Renewal
  refused : (failed_at : ℕ) (error : RenewalError) → Renewal

-- One pass of the loop: the signal stops it, or the wait ends at `started_at` and the lease is renewed.
pub data Beat : Type 0 where
  stopped : Beat
  beat : (started_at : ℕ) → Renewal → Beat

pub record HeartbeatState : Type 0 where
  pub lease_deadline_ms : ℕ
  pub next_renewal_delay_ms : ℕ

pub record Lease : Type 0 where
  pub lease_owner : String
  pub lease_duration_ms : ℕ

-- Why the lease is given up.
pub data LostReason : Type 0 where
  lease_renewal_expired : LostReason
  refused_by_api : RenewalError → LostReason

pub data Heartbeat : Type 0 where
  beating : HeartbeatState → Heartbeat
  at_rest : Heartbeat
  lost : LostReason → Heartbeat

abbrev pub retry_renewal_delay : ℕ → ℕ → ℕ → ℕ
retry_renewal_delay heartbeat_interval_ms lease_deadline_ms failed_at =
    min heartbeat_interval_ms (max 1 ((lease_deadline_ms - failed_at) / 2))

abbrev pub renewal_answered : Lease → ℕ → HeartbeatState → ℕ → Renewal → Heartbeat
renewal_answered lease heartbeat_interval_ms s started_at (renewed completed_at owner status) =
    let next_lease_deadline_ms = started_at + lease.lease_duration_ms in
    if leb next_lease_deadline_ms completed_at
      || not (owner_is owner lease.lease_owner)
      || not (is_leased status)
    then lost lease_renewal_expired
    else beating record {
      lease_deadline_ms = next_lease_deadline_ms;
      next_renewal_delay_ms = heartbeat_interval_ms;
    }
renewal_answered lease heartbeat_interval_ms s started_at (refused failed_at error) =
    if is_definitive_lease_renewal_error error
    then lost (refused_by_api error)
    else if leb s.lease_deadline_ms failed_at
    then lost lease_renewal_expired
    else beating record s {
      next_renewal_delay_ms =
          retry_renewal_delay heartbeat_interval_ms s.lease_deadline_ms failed_at;
    }

-- The body of the loop.
unfoldable pub heartbeat_step : Lease → ℕ → HeartbeatState → Beat → Heartbeat
unfolding is_definitive_lease_renewal_error
heartbeat_step lease heartbeat_interval_ms s stopped = at_rest
heartbeat_step lease heartbeat_interval_ms s (beat started_at renewal) =
    if leb s.lease_deadline_ms started_at
    then lost lease_renewal_expired
    else renewal_answered lease heartbeat_interval_ms s started_at renewal

unfoldable pub renew_lease_from : Lease → ℕ → Heartbeat → List Beat → Heartbeat
unfolding heartbeat_step
renew_lease_from lease heartbeat_interval_ms h [] = h
renew_lease_from lease heartbeat_interval_ms at_rest (b ∷ bs) = at_rest
renew_lease_from lease heartbeat_interval_ms (lost r) (b ∷ bs) = lost r
renew_lease_from lease heartbeat_interval_ms (beating s) (b ∷ bs) =
    renew_lease_from lease heartbeat_interval_ms (heartbeat_step lease heartbeat_interval_ms s b) bs

unfoldable pub renew_lease_until_stopped : Lease → ℕ → ℕ → List Beat → Heartbeat
unfolding renew_lease_from
renew_lease_until_stopped lease heartbeat_interval_ms initial_lease_deadline_ms beats =
    renew_lease_from lease heartbeat_interval_ms
      (beating record {
        lease_deadline_ms = initial_lease_deadline_ms;
        next_renewal_delay_ms = heartbeat_interval_ms;
      })
      beats
