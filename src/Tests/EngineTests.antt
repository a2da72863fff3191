-- ===== src/Tests/EngineTests.antt =====
-- The engine's theorems at concrete inputs, over `MockTransport`.
use temporal_nbd.Prelude.{
  ℕ, ◌+◌, ◌-◌, ◌/◌, ◌≡◌, ◌↔◌, refl, [], ◌∷◌, arith, ok, err, is_empty, false, leb, ltb, ◌&&◌,
  if◌then◌else◌,
}
use temporal_nbd.Errors.{io, eio}
use temporal_nbd.Geometry
use temporal_nbd.Geometry.Laws.{IsSized, new_exact}
use temporal_nbd.Transport.{blocks}
use temporal_nbd.Transport.Mock.{
  mock_transport, read_blocks as mock_read_blocks, write_batch, disconnect as mock_disconnect,
}
use temporal_nbd.Transport.Mock.Laws.{mock_store}
use temporal_nbd.Engine.Flushing.{flush_with_deadline, flush_once}
use temporal_nbd.Engine.Reading.{read_blocks}
use temporal_nbd.Engine.Operations.{write_blocks, flush, disconnect}
use temporal_nbd.Engine.View.{view, IsValid, Keeps}
use temporal_nbd.Engine.FlushResults.{flush_durable, flush_loses_nothing}
use temporal_nbd.Engine.Chunks.{slice}
use temporal_nbd.Engine.WriteLaws.{Fits, Bounded, write_blocks_stores, write_blocks-Bounded}
use temporal_nbd.Engine.ReadLoop.{Reads}
use temporal_nbd.Engine.ReadLaws.{InRange, read_blocks-Reads}
use temporal_nbd.Engine.Coherence.{read-write_blocks, disconnect-Keeps, disconnect_durable}
use temporal_nbd.Engine.Flushing.{flush_once}
use temporal_nbd.Engine.Batches.{send_all, in_batches, sent, flush_once-send_all}
use temporal_nbd.Engine.Contract.{Respects, engine_respects}
use temporal_nbd.Tests.Setup.{
  geometry, refusing, refusing-IsSound, config, clock, engine, engine-IsValid, engine_over,
  engine_over-IsValid, payload,
}

payload-Fits : Fits geometry 5 payload
payload-Fits = omega arith

range : InRange geometry 1 3
range = omega arith

-- The dirty block 2 lies over the volume's.
read_overlays :
    (read_blocks mock_transport 1 3 engine).0
    ≡ ok (0x11 ∷ 0x11 ∷ 0x11 ∷ 0x11 ∷ 0xaa ∷ 0xbb ∷ 0xcc ∷ 0xdd ∷ 0x33 ∷ 0x33 ∷ 0x33 ∷ 0x33 ∷ [])
unfolding read_blocks mock_read_blocks
read_overlays = refl

refusing_fails : (flush mock_transport clock (engine_over refusing)).0 ≡ err (io "no space")
unfolding flush flush_with_deadline flush_once write_batch
refusing_fails = refl

new_exact_example :
    (Geometry.new 64 4 ≡ ok geometry)
    ↔ (IsSized geometry × (geometry.size_bytes ≡ 64) × (geometry.block_size_bytes ≡ 4))
new_exact_example = new_exact 64 4 geometry (omega arith) (omega arith)

read-write_blocks_example :
    Reads mock_transport payload
      (read_blocks mock_transport 5
        (8 / 4)
        (write_blocks mock_transport clock 5 payload engine).1).0
read-write_blocks_example =
    read-write_blocks (mock_store 4) clock 5 payload engine engine-IsValid payload-Fits

flush_durable_example :
    let e' = (flush mock_transport clock engine).1 in
    Keeps (mock_store 4) engine e'
    × (e'.dirty ≡ [])
    × ((lba : ℕ) → (mock_store 4).contents e'.transport lba ≡ view (mock_store 4) engine lba)
unfolding flush flush_with_deadline flush_once write_batch
flush_durable_example = flush_durable (mock_store 4) clock engine engine-IsValid refl

flush_loses_nothing_example :
    let e = engine_over refusing in
    let e' = (flush mock_transport clock e).1 in
    (eio ≡ eio)
    × (is_empty e'.dirty ≡ false)
    × IsValid (mock_store 4) e'
    × ((lba : ℕ) → view (mock_store 4) e' lba ≡ view (mock_store 4) e lba)
unfolding flush flush_with_deadline flush_once write_batch
flush_loses_nothing_example =
    flush_loses_nothing (mock_store 4) clock (engine_over refusing) (io "no space")
      (engine_over-IsValid refusing refusing-IsSound) refl

write_blocks_stores_example :
    let e' = (write_blocks mock_transport clock 5 payload engine).1 in
    IsValid (mock_store 4) e'
    × (e'.geometry ≡ geometry)
    × (e'.config ≡ config)
    × ((lba : ℕ)
        → view (mock_store 4) e' lba ≡ (
            if leb 5 lba && ltb lba (5 + 8 / 4)
            then slice 4 (lba - 5) payload
            else view (mock_store 4) engine lba))
write_blocks_stores_example =
    write_blocks_stores (mock_store 4) clock 5 payload engine engine-IsValid payload-Fits

write_blocks-Bounded_example :
    let (answer, e') = write_blocks mock_transport clock 5 payload engine in
    Bounded 2 answer e'.dirty
write_blocks-Bounded_example =
    write_blocks-Bounded (mock_store 4) clock 5 payload engine engine-IsValid payload-Fits

read_blocks-Reads_example :
    let (answer, e') = read_blocks mock_transport 1 3 engine in
    Keeps (mock_store 4) engine e'
    × (e'.dirty ≡ engine.dirty)
    × Reads mock_transport (blocks (view (mock_store 4) engine) 1 3) answer
read_blocks-Reads_example = read_blocks-Reads (mock_store 4) 1 3 engine engine-IsValid range

disconnect-Keeps_example : Keeps (mock_store 4) engine (disconnect mock_transport clock engine).1
disconnect-Keeps_example = disconnect-Keeps (mock_store 4) clock engine engine-IsValid

disconnect_durable_example :
    let e' = (disconnect mock_transport clock engine).1 in
    (e'.dirty ≡ [])
    × ((lba : ℕ) → (mock_store 4).contents e'.transport lba ≡ view (mock_store 4) engine lba)
unfolding disconnect flush_with_deadline flush_once write_batch mock_disconnect
disconnect_durable_example = disconnect_durable (mock_store 4) clock engine engine-IsValid refl

-- The block size of the transport never changes.
block_size-Respects : Respects mock_transport 16 (λ m. m.block_size ≡ 4)
unfolding mock_read_blocks write_batch mock_disconnect
block_size-Respects = record {
  reads = λ lba count s p q r h. h;
  writes = λ ws s b h. ground arith;
  leaves = λ s h. h;
}

engine_respects_example :
    ((read_blocks mock_transport 1 3 engine).1.transport.block_size ≡ 4)
    × ((write_blocks mock_transport clock 1 payload engine).1.transport.block_size ≡ 4)
    × ((flush mock_transport clock engine).1.transport.block_size ≡ 4)
    × ((disconnect mock_transport clock engine).1.transport.block_size ≡ 4)
engine_respects_example = engine_respects clock engine block_size-Respects (tt, tt) refl 1 3 payload

flush_once-send_all_example :
    flush_once mock_transport engine
    ≡ sent mock_transport engine
        (send_all mock_transport (in_batches engine.dirty) engine.transport)
flush_once-send_all_example = flush_once-send_all mock_transport engine
