-- ===== src/Worker/Retries.antt =====
-- backend/app/worker_api.py: the bounds of `_retry_delay`.
use native.Mathlib.Nat.{mul-le-mul_left, pow-le-pow_right}
use race_frame.Prelude.{ℕ, ◌-◌, ◌*◌, ◌^◌, ◌≤◌, ◌<◌, min, max, arith}
use race_frame.Worker.Job.{Settings, worker_retry_base_seconds}
use race_frame.Worker.Report.{Jitter, exponential_delay}

-- `random.uniform(0.8, 1.2)` gives a factor in that range.
pub record IsUniform (jitter : Jitter) : Type 0 where
  pub positive : 0 < jitter.denominator
  pub low : 8 * jitter.denominator ≤ 10 * jitter.numerator
  pub high : 10 * jitter.numerator ≤ 12 * jitter.denominator

-- A later attempt waits no less, before the random factor.
pub exponential_delay_mono :
    (s : Settings) (a b : ℕ) → a ≤ b → exponential_delay s a ≤ exponential_delay s b
unfolding exponential_delay
exponential_delay_mono s a b h =
    let i : ℕ = min 20 (max 0 (a - 1)) in
    let j : ℕ = min 20 (max 0 (b - 1)) in
    let powers : 2 ^ i ≤ 2 ^ j = pow-le-pow_right (omega arith) (omega arith) in
    omega (arith, mul-le-mul_left (worker_retry_base_seconds s) powers)
