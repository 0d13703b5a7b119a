-- ===== src/Resilience/RetryPolicy.antt =====
-- src/domain/ai/retry-policy.ts. `randomFn()` is a fraction in [0, 1); the product is exact where the
-- code's is a double. `Math.floor` is the quotient.
use native.Mathlib.Nat.{le-div_iff_mul-le, div-le_of_le-mul}
use senecial.Base.{ℕ, ◌+◌, ◌*◌, ◌/◌, ◌^◌, ◌≤◌, ◌<◌, min, arith}

pub record RetryPolicyConfig : Type 0 where
  pub max_retries : ℕ
  pub base_delay_ms : ℕ
  pub max_delay_ms : ℕ

abbrev pub default_retry_policy : RetryPolicyConfig
default_retry_policy = record { max_retries = 2; base_delay_ms = 500; max_delay_ms = 4000 }

pub record Random : Type 0 where
  pub numerator : ℕ
  pub denominator : ℕ
  pub below_one : numerator < denominator

-- exponential * (0.5 + random * 0.5)
unfoldable pub compute_backoff_ms : ℕ → RetryPolicyConfig → Random → ℕ
compute_backoff_ms attempt_index config r =
    let exponential = min (config.base_delay_ms * 3 ^ attempt_index) config.max_delay_ms in
    exponential * (r.denominator + r.numerator) / (2 * r.denominator)

mul_mono : (d x y : ℕ) → x ≤ y → x * d ≤ y * d
mul_mono d x y h = grind arith

half_to_full : (e n d : ℕ) → n < d → (e / 2 ≤ e * (d + n) / (2 * d)) × (e * (d + n) / (2 * d) ≤ e)
half_to_full e n d h =
    let positive : 0 < 2 * d = omega arith in
    let scaled = mul_mono d (e / 2 * 2) e (omega arith) in
    ((le-div_iff_mul-le positive).1 (omega (arith, scaled)), div-le_of_le-mul (2 * d) (grind arith))

-- The delay lies between half of the exponential delay, rounded down, and all of it; so it is never
-- above the cap of the policy.
pub compute_backoff_ms_bounds :
    (i : ℕ) (config : RetryPolicyConfig) (r : Random)
    → let e = min (config.base_delay_ms * 3 ^ i) config.max_delay_ms in
      (e / 2 ≤ compute_backoff_ms i config r)
      × (compute_backoff_ms i config r ≤ e)
      × (compute_backoff_ms i config r ≤ config.max_delay_ms)
unfolding compute_backoff_ms
compute_backoff_ms_bounds i config r = omega (
  arith,
  half_to_full (min (config.base_delay_ms * 3 ^ i) config.max_delay_ms) r.numerator r.denominator
      r.below_one,
)
