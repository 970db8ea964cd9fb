-- ===== src/Worker/Backoff.antt =====
-- The delay before a failed event is tried again: `retryDelayFor` of
-- services/payment-service/src/workers/outbox-publisher-worker.ts.
use native.Mathlib.Nat.{pow-succ'}
use native.Mathlib.Numerals.{add-one}
use payment_orchestration_pl.Prelude.{ℕ, ◌+◌, ◌*◌, ◌^◌, ◌≤◌, ◌<◌, min, ◌≡◌, ◌∙◌, ap, arith}
use payment_orchestration_pl.Worker.{WorkerConfig, retry_delay_for}

-- The first delay is the base, each is double the last, all up to the cap, and from the exponent
-- 52 on they stay.
pub record IsBackoff (config : WorkerConfig) : Type 0 where
  pub first : retry_delay_for config 0 ≡ min config.retry_max_delay_ms config.retry_base_delay_ms
  pub doubles :
      (n : ℕ)
      → n < 52
      → retry_delay_for config (n + 1)
        ≡ min config.retry_max_delay_ms (2 * retry_delay_for config n)
  pub levels : (n : ℕ) → 52 ≤ n → retry_delay_for config n ≡ retry_delay_for config 52
  pub capped : (n : ℕ) → retry_delay_for config n ≤ config.retry_max_delay_ms

double_product : (base n : ℕ) → base * 2 ^ (n + 1) ≡ 2 * (base * 2 ^ n)
double_product base n =
    let e : 2 ^ (n + 1) ≡ 2 * 2 ^ n = ap (λ k. 2 ^ k) (add-one n) ∙ pow-succ' 2 n in
    rw e (omega arith)

-- The retry delays start at the base, double each time, never exceed the cap, and are constant
-- from the exponent 52 on.
pub retry_delay_for-IsBackoff : (config : WorkerConfig) → IsBackoff config
unfolding retry_delay_for
retry_delay_for-IsBackoff config = record {
  first = ground arith;
  doubles = λ n h.
      let e : min (n + 1) 52 ≡ n + 1 = ground arith in
      let e' : min n 52 ≡ n = ground arith in
      rw (e, e') (ground (arith, double_product config.retry_base_delay_ms n));
  levels = λ n h. ground arith;
  capped = λ n. ground arith;
}
