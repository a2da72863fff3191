-- ===== src/Tests/OutlastingTests.antt =====
-- A session whose service lets one batch time out.
use temporal_nbd.Prelude.{ℕ, suc, ◌≡◌, refl, ap, ◌⊎◌, inl, inr, List, [], ◌∷◌, ok, arith}
use temporal_nbd.Transport.{Bytes, BlockWrite}
use temporal_nbd.Transport.Mock.{MockTransport, read_blocks, write_batch}
use temporal_nbd.Session.Service.{answered}
use temporal_nbd.Session.Requests.{run_read_blocks_with_retry, run_write_batch_with_retry}
use temporal_nbd.Session.Outlasting.{Flaky, IsTransient, requests_outlast}
use temporal_nbd.Tests.Setup.{block}
use temporal_nbd.Tests.ServiceSetup.{service, reply, session_config, session}
use temporal_nbd.Tests.RecoveryTests.{IsBusy, IsBusy-write_batch}

pub IsBusy-read_blocks :
    (n start count : ℕ) (t : MockTransport) → IsBusy n t → IsBusy n (read_blocks start count t).1
unfolding read_blocks
IsBusy-read_blocks n start count t h = h

pub flaky_reads :
    (n start count : ℕ) (t : MockTransport)
    → (bytes : Bytes) × (reply (read_blocks start count t).0 ≡ answered bytes)
unfolding read_blocks
flaky_reads n start count t = (_, refl)

pub flaky_writes :
    (n : ℕ) (ws : List BlockWrite) (t : MockTransport)
    → IsBusy n t
    → let (answer, t') = write_batch ws t in
      ((u : Unit {0}) × (reply answer ≡ answered u) × IsBusy n t')
      ⊎ ((m : ℕ) × (n ≡ suc m) × IsTransient (reply answer) × IsBusy m t')
flaky_writes n ws t h = elim (IsBusy-write_batch n ws t h) [
  | inl (q, k) ↦ inl (tt, ap reply q, k)
  | inr (m, message, e, q, k) ↦ inr (m, e, rw q tt, k)
]

abbrev pub flaky : Flaky service
flaky = record {
  AtMost = λ n w. IsBusy n w.volume;
  sleeps = λ n d w h. h;
  draws = λ n low high w h. h;
  connects = λ n url a b w h. inl (tt, refl, h);
  reads = λ n limit client namespace volume start count w h.
      let (bytes, q) = flaky_reads n start count w.volume in
      inl (bytes, q, IsBusy-read_blocks n start count w.volume h);
  writes = λ n limit client namespace volume ws w h. flaky_writes n ws w.volume h;
}

abbrev batch : List BlockWrite
batch = record { lba = 2; block_data = block } ∷ []

requests_outlast_example :
    ((bytes : Bytes) × ((run_read_blocks_with_retry service 1 2 session).0 ≡ ok bytes))
    × ((run_write_batch_with_retry service batch session).0 ≡ ok tt)
requests_outlast_example =
    requests_outlast flaky session_config 1 1 2 batch session (omega arith) ((refl, refl), refl)
