-- ===== src/Session/Lasting.antt =====
-- A session that will meet fewer failures than it makes attempts, as the transport of an engine: no
-- batch of the engine fails.
use temporal_nbd.Prelude.{ℕ, ◌<◌, inl, arith}
use temporal_nbd.Engine.Contract.{Respects}
use temporal_nbd.Engine.Recovery.{Failing}
use temporal_nbd.Session.Backoff.{capped_attempts}
use temporal_nbd.Session.Service.{Service, VolumeSessionConfig, Session}
use temporal_nbd.Session.Requests.{session_transport}
use temporal_nbd.Session.Outlasting.{Flaky, Meets, read-Succeeds, write_batch-Succeeds}

module _ {W : Service} (F : Flaky W) (config : VolumeSessionConfig W) where
  abbrev pub IsLasting : Session W → Type 0
  IsLasting state = (n : ℕ) × (n < capped_attempts config.retry_config) × Meets F config n state

  pub IsLasting-Respects : (total : ℕ) → Respects (session_transport W) total IsLasting
  IsLasting-Respects total = record {
    reads = λ lba count state p q r h.
        let (bytes, m, le, e, k) = read-Succeeds F config h.0 lba count state h.1 h.2 in
        (m, omega (arith, le, h.1), k);
    writes = λ ws state b h.
        let (u, m, le, e, k) = write_batch-Succeeds F config h.0 ws state h.1 h.2 in
        (m, omega (arith, le, h.1), k);
    leaves = λ state h. h;
  }

  abbrev pub never_failing : Failing (session_transport W)
  never_failing = record {
    AtMost = λ n state. IsLasting state;
    writes = λ n ws state h.
        let (u, m, le, e, k) = write_batch-Succeeds F config h.0 ws state h.1 h.2 in
        inl (e, (m, omega (arith, le, h.1), k));
  }
