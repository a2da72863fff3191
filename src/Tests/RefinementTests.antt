-- ===== src/Tests/RefinementTests.antt =====
-- The bridge as a device, at concrete inputs.
use temporal_nbd.Prelude.{ℕ, ◌≡◌, refl, none, List, [], ◌∷◌, ok}
use temporal_nbd.BTree.{lookup}
use temporal_nbd.Transport.Mock.{mock_transport, write_batch}
use temporal_nbd.Transport.Mock.Laws.{mock_store}
use temporal_nbd.Engine.Operations.{BlockDeviceEngine, caching_engine}
use temporal_nbd.Engine.Flushing.{flush_with_deadline, flush_once}
use temporal_nbd.Engine.View.{view, IsValid}
use temporal_nbd.Bridge.{
  Event, arrived, cancelled, read, write, flush, engine_loop, run_engine_loop,
}
use temporal_nbd.Bridge.Loop.{answered}
use temporal_nbd.Bridge.Spec.{effects}
use temporal_nbd.Bridge.Refinement.{Handled, handled, handle_request_refines}
use temporal_nbd.Bridge.Runs.{run_engine_loop-effects}
use temporal_nbd.Bridge.Durability.{flush_survives}
use temporal_nbd.Tests.Setup.{
  engine_over, refusing, refusing-IsSound, engine_over-IsValid, clock, engine, engine-IsValid,
  payload, geometry,
}

abbrev E : BlockDeviceEngine
E = caching_engine mock_transport clock

-- A write whose flush the transport refuses for good.
handle_request_refines_example :
    Handled
      (mock_store 4)
      clock
      (engine_over refusing)
      (engine_over-IsValid refusing refusing-IsSound)
      (write 20 payload)
      (handled
        (mock_store 4)
        clock
        (engine_over refusing)
        (engine_over-IsValid refusing refusing-IsSound)
        (write 20 payload))
handle_request_refines_example =
    handle_request_refines (mock_store 4) clock (engine_over refusing)
      (engine_over-IsValid refusing refusing-IsSound) (write 20 payload)

-- A write, a read, an unaligned read and a flush, and a write after the cancellation.
abbrev events : List Event
events =
    arrived (write 20 payload)
    ∷ arrived (read 20 8)
    ∷ arrived (read 3 4)
    ∷ arrived flush
    ∷ cancelled
    ∷ arrived (write 0 payload)
    ∷ []

run_engine_loop-effects_example :
    let (responses, e') = run_engine_loop E 4 events engine in
    IsValid (mock_store 4) e'
    × ((lba : ℕ)
        → view (mock_store 4) e' lba
          ≡ effects geometry (answered events) (view (mock_store 4) engine) lba)
    × ((lba : ℕ)
        → lookup lba e'.dirty ≡ none
        → (mock_store 4).contents e'.transport lba
          ≡ effects geometry (answered events) (view (mock_store 4) engine) lba)
run_engine_loop-effects_example =
    run_engine_loop-effects (mock_store 4) clock events engine engine-IsValid

flushes : (E.flush engine).0 ≡ ok tt
unfolding temporal_nbd.Engine.Operations.flush flush_with_deadline flush_once write_batch
flushes = refl

-- The block at 2 was dirty, and is not written again.
flush_survives_example :
    let flushed = (E.flush engine).1 in
    let (responses, exited, standing) = engine_loop E 4 events flushed in
    let (responses', after) = run_engine_loop E 4 events flushed in
    ((mock_store 4).contents standing.transport 2 ≡ view (mock_store 4) engine 2)
    × ((mock_store 4).contents after.transport 2 ≡ view (mock_store 4) engine 2)
flush_survives_example =
    flush_survives (mock_store 4) clock engine engine-IsValid events 2 flushes
      (refl, (refl, (refl, (refl, tt))))
