-- ===== src/Tests/LargeReadTests.antt =====
-- The unit test that reads several hundred blocks holds, by the theorem on reads.
use temporal_nbd.Prelude.{
  ℕ, ◌*◌, ◌≡◌, ◌&&◌, ◌==◌, ◌>>=◌, Result, refl, subst, ap, ◌∙◌, true, [], ◌∷◌, ok, length, arith,
  replicate,
}
use temporal_nbd.Errors.{EngineError}
use temporal_nbd.Transport.{Bytes, blocks}
use temporal_nbd.Transport.Blocks.{copy_into, length-blocks}
use temporal_nbd.Transport.Mock.{MockTransport, new, mock_transport, read_blocks}
use temporal_nbd.Transport.Mock.Laws.{mock_store}
use temporal_nbd.Engine.State.{Engine}
use temporal_nbd.Engine.Reading.{accept_chunk, read_chunks}
use temporal_nbd.Engine.Reading
use temporal_nbd.Engine.ReadLoop.{Reads, read_chunks-step, read_chunks-done}
use temporal_nbd.Engine.ReadLaws.{InRange, read_blocks-Reads}
use temporal_nbd.Engine.View.{view, view-IsUniform, IsValid}
use temporal_nbd.Scenarios.EngineRuns.{test_geometry, is_ok, data_of}
use temporal_nbd.Scenarios.LargeRuns.{
  large_engine, two_calls, read_chunks_requests_to_contract_limit,
}
use temporal_nbd.Tests.LargeTests.{large-IsSized}

abbrev fresh : Engine mock_transport
fresh = large_engine (new 4)

fresh-IsSound : (mock_store 4).IsSound (new 4)
unfolding mock_store
fresh-IsSound = (refl, tt)

fresh-IsValid : IsValid (mock_store 4) fresh
fresh-IsValid = record {
  block_eq = refl;
  sized = large-IsSized;
  sorted = tt;
  cached = tt;
  watermark_pos = omega arith;
  sound = fresh-IsSound;
}

abbrev read_out : ℕ → ℕ → MockTransport → MockTransport
read_out start count t = (read_blocks start count t).1

-- A request that `MockTransport` answers passes the checks on the answer.
answers :
    (start count : ℕ) (t : MockTransport)
    → (mock_store 4).IsSound t
    → (bytes : Bytes) × ((read_blocks start count t).0 ≡ ok bytes) × (length bytes ≡ count * 4)
unfolding read_blocks
answers start count t s =
    let same = (mock_store 4).read_answer start count t s refl in
    (
      _,
      refl,
      ap length same
          ∙ length-blocks ((mock_store 4).contents t) start count
              (λ lba. (mock_store 4).length-contents t lba s),
    )

out-IsSound :
    (start count : ℕ) (t : MockTransport)
    → (mock_store 4).IsSound t
    → (mock_store 4).IsSound (read_out start count t)
unfolding mock_store read_blocks
out-IsSound start count t s = s

both_calls : (read_out 512 88 (read_out 0 512 (new 4))).read_calls ≡ (0, 512) ∷ (512, 88) ∷ []
unfolding read_blocks
both_calls = refl

two_requests :
    (out : Bytes)
    → let (answer, t) = read_chunks mock_transport 600 4 600 0 0 out (new 4) in
      (bytes : Bytes) × (answer ≡ ok bytes) × (t.read_calls ≡ (0, 512) ∷ (512, 88) ∷ [])
two_requests out =
    let t' = read_out 0 512 (new 4) in
    let (first, p, l) = answers 0 512 (new 4) fresh-IsSound in
    let (second, q, k) = answers 512 88 t' (out-IsSound 0 512 (new 4) fresh-IsSound) in
    let copied = copy_into out 0 first in
    let both =
      read_chunks-step (mock_store 4) 599 600 0 0 out first (new 4) (omega arith) p l (omega arith)
        (omega arith)
      ∙ read_chunks-step (mock_store 4) 598 88 512 2048 copied second t' (omega arith) q k
          (omega arith) (omega arith)
      ∙ read_chunks-done (mock_store 4) 598 600 2400 (copy_into copied 2048 second)
          (read_out 512 88 t') in
    (_, ap (λ r. r.0) both, ap (λ r. r.1.read_calls) both ∙ both_calls)

-- The read is answered, after two requests.
answered :
    let (answer, e) = Reading.read_blocks mock_transport 0 600 fresh in
    (bytes : Bytes) × (answer ≡ ok bytes) × (e.transport.read_calls ≡ (0, 512) ∷ (512, 88) ∷ [])
unfolding Reading.read_blocks Reading.finish_read Reading.overlay_dirty Reading.check_read
answered =
    let (bytes, p, calls) = two_requests (replicate 2400 0) in
    (bytes, ap (λ r. r >>= Reading.finish_read mock_transport 0 600 fresh) p, calls)

checks :
    (r : Result Bytes EngineError × Engine mock_transport) (bytes : Bytes)
    → r.0 ≡ ok bytes
    → length bytes ≡ 2400
    → r.1.transport.read_calls ≡ (0, 512) ∷ (512, 88) ∷ []
    → (is_ok r.0
        && ((length (data_of r.0) == 2400) && two_calls 0 512 512 88 r.1.transport.read_calls))
      ≡ true
checks r bytes p l calls = rw p (rw l (rw calls refl))

read_passes : read_chunks_requests_to_contract_limit ≡ true
unfolding read_chunks_requests_to_contract_limit
read_passes =
    let within : InRange (test_geometry 4 2000) 0 600 = record {
      some_blocks = omega arith;
      inside = omega arith;
    } in
    let (kept, dirty, reads) = read_blocks-Reads (mock_store 4) 0 600 fresh fresh-IsValid within in
    let (bytes, p, calls) = answered in
    let shown : bytes ≡ blocks (view (mock_store 4) fresh) 0 600 =
      subst (Reads mock_transport (blocks (view (mock_store 4) fresh) 0 600)) p reads in
    checks (Reading.read_blocks mock_transport 0 600 fresh) bytes p
      (ap length shown
        ∙ length-blocks _ 0 600 (view-IsUniform (mock_store 4) fresh fresh-IsValid refl))
      calls
