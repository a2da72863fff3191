-- ===== src/Session/BackoffLaws.antt =====
-- The delays between attempts of `RetryConfig`, before their jitter.
use native.Mathlib.Nat.{pow-le-pow_right, mul-le-mul_left}
use temporal_nbd.Prelude.{ℕ, ◌-◌, ◌*◌, ◌^◌, ◌≤◌, ◌≡◌, arith, min}
use temporal_nbd.Session.Backoff.{Floats, RetryConfig, capped_delay, duration_max}

module _ {F : Floats} (config : RetryConfig F) (bound : config.max_backoff ≤ duration_max) where
  -- Where the greatest delay is a `Duration`, the delay before the jitter is the initial one,
  -- doubled with each attempt up to twelve times, and cut at the greatest one, also where the
  -- product is no `Duration`.
  pub capped_delay_exact :
      (attempt : ℕ)
      → capped_delay config attempt
        ≡ min (config.initial_backoff * 2 ^ min (attempt - 1) 12) config.max_backoff
  unfolding capped_delay
  capped_delay_exact attempt = ground arith

  -- Where the greatest delay is a `Duration`, the delay before the jitter does not fall from
  -- attempt to attempt, and it is never longer than the greatest one.
  pub capped_delay_grows :
      (i j : ℕ)
      → i ≤ j
      → (capped_delay config i ≤ capped_delay config j)
        × (capped_delay config j ≤ config.max_backoff)
  capped_delay_grows i j h =
      let power : 2 ^ min (i - 1) 12 ≤ 2 ^ min (j - 1) 12 =
        pow-le-pow_right (omega arith) (omega arith) in
      omega (
        arith,
        capped_delay_exact i,
        capped_delay_exact j,
        mul-le-mul_left {m = 2 ^ min (i - 1) 12} {n = 2 ^ min (j - 1) 12} config.initial_backoff
            power,
      )
