-- ===== src/Tests/SessionTests.antt =====
-- The session's theorems at concrete inputs. The service lets the first batch time out, so the
-- session sends it again.
use temporal_nbd.Prelude.{ℕ, ◌+◌, ◌≤◌, ◌≡◌, refl, List, [], ◌∷◌, arith, ok, max}
use temporal_nbd.Geometry.{new as new_geometry}
use temporal_nbd.Transport.{BlockWrite, store_all, blocks}
use temporal_nbd.Transport.Laws.{AreBlocks}
use temporal_nbd.Transport.Mock.{read_blocks, write_batch}
use temporal_nbd.Engine.State.{new}
use temporal_nbd.Engine.View.{view, IsValid}
use temporal_nbd.Session.Retry.{retry}
use temporal_nbd.Session.Backoff.{delay_for_attempt}
use temporal_nbd.Session.Opening.{sleep_before_retry, connect_and_open, open_round, opened_geometry}
use temporal_nbd.Session.Requests.{
  ensure_connected, read_round, write_round, run_read_blocks_with_retry,
  run_write_batch_rpc_with_retry, write_chunks, run_write_batch_with_retry, session_transport,
}
use temporal_nbd.Session.RequestLaws.{run_read_blocks_answer}
use temporal_nbd.Session.WriteLaws.{run_write_batch_stores, run_write_batch-Misses}
use temporal_nbd.Session.Counters.{IsCounted, Counts, run_write_batch-Counts}
use temporal_nbd.Session.Store.{session_store}
use temporal_nbd.Session.OpeningLaws.{connect_and_open-IsValid}
use temporal_nbd.Session.Meter.{requests_limited}
use temporal_nbd.Session.Limits.{Allows, run_write_batch_limited}
use temporal_nbd.Tests.Setup.{geometry, config}
use temporal_nbd.Tests.ServiceSetup.{
  World, service, service_volume, service_meter, session_config, world, world-IsSound, session,
}

abbrev batch : List BlockWrite
batch =
    record { lba = 3; block_data = 1 ∷ 2 ∷ 3 ∷ 4 ∷ [] }
    ∷ record { lba = 5; block_data = 5 ∷ 6 ∷ 7 ∷ 8 ∷ [] }
    ∷ []

batch-AreBlocks : AreBlocks 4 batch
batch-AreBlocks = (refl, (refl, tt))

-- The batch is acknowledged at the second attempt, over a new connection.
batch_sent_twice :
    let out = run_write_batch_with_retry service batch session in
    (out.0 ≡ ok tt) × (out.1.1.received ≡ 2) × (out.1.0.write_blocks_sent ≡ 2)
unfolding run_write_batch_with_retry write_chunks run_write_batch_rpc_with_retry write_round
    ensure_connected retry sleep_before_retry delay_for_attempt write_batch
batch_sent_twice = (refl, refl, refl)

run_write_batch_stores_example :
    (service_volume "default" "vol").contents
      (run_write_batch_with_retry service batch session).1.1
      5
    ≡ store_all batch ((service_volume "default" "vol").contents world) 5
run_write_batch_stores_example =
    run_write_batch_stores session_config (service_volume "default" "vol") batch session
      batch-AreBlocks (world-IsSound, refl) 5 batch_sent_twice.0

session-IsCounted : IsCounted session.0
session-IsCounted = record {
  rpcs_bound = omega arith;
  bytes_bound = omega arith;
  blocks_bound = omega arith;
}

run_write_batch-Counts_example :
    let out = run_write_batch_with_retry service batch session in
    Counts batch session.0 out.0 out.1.0
run_write_batch-Counts_example = run_write_batch-Counts batch session session-IsCounted

run_write_batch-Misses_example :
    (service_volume "default" "vol").contents
      (run_write_batch_with_retry service batch session).1.1
      4
    ≡ (service_volume "default" "vol").contents world 4
run_write_batch-Misses_example =
    run_write_batch-Misses session_config (service_volume "default" "vol") batch session
      batch-AreBlocks (world-IsSound, refl) 4 (omega arith, (omega arith, tt))

blocks_read :
    (run_read_blocks_with_retry service 1 2 session).0
    ≡ ok (0x11 ∷ 0x11 ∷ 0x11 ∷ 0x11 ∷ 0x22 ∷ 0x22 ∷ 0x22 ∷ 0x22 ∷ [])
unfolding run_read_blocks_with_retry read_round ensure_connected retry read_blocks
blocks_read = refl

run_read_blocks_answer_example :
    (0x11 ∷ 0x11 ∷ 0x11 ∷ 0x11 ∷ 0x22 ∷ 0x22 ∷ 0x22 ∷ 0x22 ∷ [])
    ≡ blocks ((service_volume "default" "vol").contents world) 1 2
run_read_blocks_answer_example =
    run_read_blocks_answer session_config (service_volume "default" "vol") 1 2 session
      (world-IsSound, refl) blocks_read

opened : (connect_and_open service session_config world).0 ≡ ok session.0
unfolding connect_and_open open_round opened_geometry retry new_geometry
opened = refl

connect_and_open-IsValid_example :
    let w' = (connect_and_open service session_config world).1 in
    let S = session_store session_config (service_volume "default" "vol") in
    let e = new (session_transport service) geometry (session.0, w') config in
    IsValid S e × ((lba : ℕ) → view S e lba ≡ (service_volume "default" "vol").contents world lba)
connect_and_open-IsValid_example =
    connect_and_open-IsValid session_config (service_volume "default" "vol") world session.0 config
      world-IsSound opened

requests_limited_example :
    let attempts = max 3 1 in
    (service_meter.requests (run_read_blocks_with_retry service 1 2 session).1.1
      ≤ service_meter.requests world + attempts)
    × (service_meter.requests (run_write_batch_rpc_with_retry service batch session).1.1
        ≤ service_meter.requests world + attempts)
requests_limited_example = requests_limited service_meter 1 2 batch session

-- No batch was longer than 64 writes.
abbrev Short : World → Type 0
Short w = w.longest ≤ 64

short : Allows service Short
short = record {
  sleeps = λ d w p. p;
  draws = λ low high w p. p;
  connects = λ url a b w p. p;
  writes = λ limit client namespace volume_id ws w n l p. omega (arith, l, p);
}

run_write_batch_limited_example : Short (run_write_batch_with_retry service batch session).1.1
run_write_batch_limited_example = run_write_batch_limited short batch session (omega arith)
