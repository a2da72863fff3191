-- ===== src/CommandLine/Laws.antt =====
-- The units of the command line: what the configured durations come to.
use temporal_nbd.Prelude.{ℕ, ◌-◌, ◌*◌, ◌/◌, ◌^◌, ◌≤◌, ◌≡◌, arith, min, u64_max}
use temporal_nbd.Session.Backoff.{RetryConfig, capped_delay, duration_max}
use temporal_nbd.Session.BackoffLaws.{capped_delay_exact, capped_delay_grows}
use temporal_nbd.Session.Service.{Service}
use temporal_nbd.Attach.{AttachConfig, session_config, engine_config}
use temporal_nbd.CommandLine.{AttachArgs, attach_config}

-- The numbers of the command line that give durations have 64 bits.
pub record AreU64 {W : Service} (args : AttachArgs W) : Type 0 where
  pub connect_bound : args.connect_timeout_secs ≤ u64_max
  pub rpc_bound : args.rpc_timeout_secs ≤ u64_max
  pub initial_bound : args.retry_initial_backoff_ms ≤ u64_max
  pub max_bound : args.retry_max_backoff_ms ≤ u64_max
  pub deadline_bound : args.flush_retry_deadline_secs ≤ u64_max
  pub interval_bound : args.flush_retry_interval_ms ≤ u64_max

module _ {W : Service} (args : AttachArgs W) (u : AreU64 args) where
  abbrev config : AttachConfig W
  config = attach_config W args

  abbrev retries : RetryConfig W.floats
  retries = (session_config W config).retry_config

  -- For numbers of 64 bits on the command line, every configured duration is a `Duration`. The
  -- timeouts of the session that `attach` opens and the deadline of its engine, read in seconds, and
  -- the engine's interval, read in milliseconds, are the numbers given. The delays before the jitter
  -- are the milliseconds given as the initial backoff, doubled with each attempt up to twelve times
  -- and cut at those given as the greatest; they do not fall from attempt to attempt and are never
  -- longer than the greatest.
  pub attach_config_delays :
      (i j : ℕ)
      → i ≤ j
      → (config.connect_timeout ≤ duration_max)
        × (config.rpc_timeout ≤ duration_max)
        × (config.retry_initial_backoff ≤ duration_max)
        × (config.retry_max_backoff ≤ duration_max)
        × (config.flush_retry_deadline ≤ duration_max)
        × (config.flush_retry_interval ≤ duration_max)
        × ((session_config W config).connect_timeout / 1_000_000_000 ≡ args.connect_timeout_secs)
        × ((session_config W config).rpc_timeout / 1_000_000_000 ≡ args.rpc_timeout_secs)
        × ((engine_config W config).flush_retry_deadline / 1_000_000_000
            ≡ args.flush_retry_deadline_secs)
        × ((engine_config W config).flush_retry_interval / 1_000_000 ≡ args.flush_retry_interval_ms)
        × (capped_delay retries i
            ≡ min
                (args.retry_initial_backoff_ms * 1_000_000 * 2 ^ min (i - 1) 12)
                (args.retry_max_backoff_ms * 1_000_000))
        × (capped_delay retries i ≤ capped_delay retries j)
        × (capped_delay retries j ≤ args.retry_max_backoff_ms * 1_000_000)
  attach_config_delays i j h =
      let grows = capped_delay_grows retries (omega (arith, u.max_bound)) i j h in
      (
        omega (arith, u.connect_bound),
        omega (arith, u.rpc_bound),
        omega (arith, u.initial_bound),
        omega (arith, u.max_bound),
        omega (arith, u.deadline_bound),
        omega (arith, u.interval_bound),
        omega arith,
        omega arith,
        omega arith,
        omega arith,
        capped_delay_exact retries (omega (arith, u.max_bound)) i,
        grows.0,
        grows.1,
      )
