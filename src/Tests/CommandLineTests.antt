-- ===== src/Tests/CommandLineTests.antt =====
-- The command line, at its defaults.
use temporal_nbd.Prelude.{◌-◌, ◌*◌, ◌/◌, ◌^◌, ◌≤◌, ◌≡◌, arith, min}
use temporal_nbd.Session.Backoff.{capped_delay, duration_max}
use temporal_nbd.Attach.{session_config, engine_config}
use temporal_nbd.CommandLine.{AttachArgs, attach_config}
use temporal_nbd.CommandLine.Laws.{AreU64, attach_config_delays}
use temporal_nbd.Tests.ServiceSetup.{service}

abbrev defaults : AttachArgs service
defaults = record {
  frontend_endpoint = "127.0.0.1:7233";
  namespace = "default";
  volume_id = "vol";
  nbd_device = "/dev/nbd0";
  connect_timeout_secs = 5;
  rpc_timeout_secs = 5;
  retry_max_attempts = 8;
  retry_initial_backoff_ms = 150;
  retry_max_backoff_ms = 2000;
  retry_jitter_ratio = 200;
  dirty_high_water_blocks = 4096;
  flush_retry_deadline_secs = 20;
  flush_retry_interval_ms = 200;
  engine_queue_capacity = 1024;
  nbd_timeout_secs = 30;
}

defaults-AreU64 : AreU64 defaults
defaults-AreU64 = omega arith

attach_config_delays_example :
    let config = attach_config service defaults in
    let retries = (session_config service config).retry_config in
    (config.connect_timeout ≤ duration_max)
    × (config.rpc_timeout ≤ duration_max)
    × (config.retry_initial_backoff ≤ duration_max)
    × (config.retry_max_backoff ≤ duration_max)
    × (config.flush_retry_deadline ≤ duration_max)
    × (config.flush_retry_interval ≤ duration_max)
    × ((session_config service config).connect_timeout / 1_000_000_000 ≡ 5)
    × ((session_config service config).rpc_timeout / 1_000_000_000 ≡ 5)
    × ((engine_config service config).flush_retry_deadline / 1_000_000_000 ≡ 20)
    × ((engine_config service config).flush_retry_interval / 1_000_000 ≡ 200)
    × (capped_delay retries 2 ≡ min (150 * 1_000_000 * 2 ^ min (2 - 1) 12) (2000 * 1_000_000))
    × (capped_delay retries 2 ≤ capped_delay retries 5)
    × (capped_delay retries 5 ≤ 2000 * 1_000_000)
attach_config_delays_example = attach_config_delays defaults defaults-AreU64 2 5 (omega arith)
