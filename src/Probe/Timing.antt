-- ===== src/Probe/Timing.antt =====
-- The seconds that `clampHealthCheckSeconds` and the cap of the timeout leave.
use nebari_landing.Base.{◌≡◌, arith, ℤ, pos, ◌≤ℤ◌, ◌<ℤ◌}
use nebari_landing.App.{HealthCheck}
use nebari_landing.Probe.{clamp_seconds, interval_of, timeout_of}

-- The seconds of a probe that is worth running.
pub record IsTimed (interval timeout : ℤ) : Type 0 where
  pub interval_low : pos 10 ≤ℤ interval
  pub interval_high : interval ≤ℤ pos 300
  pub timeout_low : pos 1 ≤ℤ timeout
  pub timeout_high : timeout ≤ℤ pos 30
  pub timeout_fits : timeout ≤ℤ interval

clamp_seconds_bounds :
    (value default_value min_value max_value : ℤ)
    → min_value ≤ℤ default_value
    → default_value ≤ℤ max_value
    → (min_value ≤ℤ clamp_seconds value default_value min_value max_value)
      × (clamp_seconds value default_value min_value max_value ≤ℤ max_value)
unfolding clamp_seconds
clamp_seconds_bounds value default_value min_value max_value h k = ground arith

-- A value within the limits is kept.
pub clamp_seconds_within :
    (value default_value min_value max_value : ℤ)
    → pos 0 <ℤ value
    → min_value ≤ℤ value
    → value ≤ℤ max_value
    → clamp_seconds value default_value min_value max_value ≡ value
unfolding clamp_seconds
clamp_seconds_within value default_value min_value max_value p h k = ground arith

pub IsTimed-of : (hc : HealthCheck) → IsTimed (interval_of hc) (timeout_of hc)
unfolding interval_of timeout_of
IsTimed-of hc = ground (
  arith,
  clamp_seconds_bounds hc.interval_seconds (pos 30) (pos 10) (pos 300),
  clamp_seconds_bounds hc.timeout_seconds (pos 5) (pos 1) (pos 30),
)
