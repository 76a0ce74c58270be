-- ===== src/Admission/Delay.antt =====
-- `_retry_delay` of providers/admission.py. A time is a whole number of ticks.
use Prim.Native.Nat.{min}
use native.Mathlib.Nat.{one-le-pow}
use design.Common.{ℕ, ◌+◌, ◌-◌, ◌*◌, ◌≤◌, max, Option, none, some, arith}
use Prim.Native.Nat.{◌^◌}
use design.Admission.Execution.{ProviderError}

pub record Backoff : Type 0 where
  pub base_delay : ℕ
  pub max_delay : ℕ
  pub jitter : ℕ

abbrev pub or_zero : Option ℕ → ℕ
or_zero none = 0
or_zero (some n) = n

-- `draw` is the value of `random.uniform(0, jitter)`.
unfoldable pub retry_delay : Backoff → (draw : ℕ) → ProviderError → (attempt : ℕ) → ℕ
retry_delay b draw error attempt =
    max (min (b.base_delay * 2 ^ (attempt - 1)) b.max_delay + draw) (or_zero error.retry_after)

-- If the base delay is at most the maximum and the draw at most the jitter, the delay is at least the base delay and what the server asked for, and at most the larger of
-- what the server asked for and the configured maximum with its jitter.
pub retry_delay_bounds :
    (b : Backoff) (draw : ℕ) (error : ProviderError) (attempt : ℕ)
    → b.base_delay ≤ b.max_delay
    → draw ≤ b.jitter
    → (b.base_delay ≤ retry_delay b draw error attempt)
      × (or_zero error.retry_after ≤ retry_delay b draw error attempt)
      × (retry_delay b draw error attempt
          ≤ max (b.max_delay + b.jitter) (or_zero error.retry_after))
unfolding retry_delay
retry_delay_bounds b draw error attempt h k =
    let positive = one-le-pow (attempt - 1) 2 (omega arith) in
    let grown : b.base_delay ≤ b.base_delay * 2 ^ (attempt - 1) = grind (arith, positive) in
    (omega arith, omega arith, omega arith)
