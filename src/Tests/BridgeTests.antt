-- ===== src/Tests/BridgeTests.antt =====
-- The bridge's theorems at concrete inputs.
use temporal_nbd.Prelude.{List, ◌≡◌, ◌↔◌, refl, [], ◌∷◌, ok, length}
use temporal_nbd.Transport.Mock.{mock_transport}
use temporal_nbd.Engine.Operations.{caching_engine}
use temporal_nbd.Bridge.{
  Event, arrived, read, write, flush, disconnect, offset_len_to_lba, run_engine_loop,
}
use temporal_nbd.Bridge.Address.{Translates, offset_len_to_lba_exact}
use temporal_nbd.Bridge.Loop.{answered, before_disconnect, serve, run_engine_loop_disconnects}
use temporal_nbd.Tests.Setup.{clock, engine, payload}

translates_aligned : offset_len_to_lba 8192 12288 4096 ≡ ok (2, 3)
unfolding offset_len_to_lba
translates_aligned = refl

offset_len_to_lba_exact_example :
    (offset_len_to_lba 8192 12288 4096 ≡ ok (2, 3)) ↔ Translates 8192 12288 4096 2 3
offset_len_to_lba_exact_example = offset_len_to_lba_exact 8192 12288 4096 2 3

-- A write, a read, an unaligned read and a disconnect, and a flush that comes too late.
abbrev events : List Event
events =
    arrived (write 20 payload)
    ∷ arrived (read 20 8)
    ∷ arrived (read 3 4)
    ∷ arrived disconnect
    ∷ arrived flush
    ∷ []

run_engine_loop_disconnects_example :
    let E = caching_engine mock_transport clock in
    let (responses, e') = run_engine_loop E 4 events engine in
    (e' ≡ (E.disconnect (serve E 4 (before_disconnect (answered events)) engine)).1)
    × (length responses ≡ 4)
run_engine_loop_disconnects_example =
    run_engine_loop_disconnects (caching_engine mock_transport clock) 4 events engine
