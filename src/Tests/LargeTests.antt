-- ===== src/Tests/LargeTests.antt =====
-- The unit tests over several hundred blocks hold, by the theorems on batches.
use mathlib.Core.List.{append-nil}
use temporal_nbd.Prelude.{
  ℕ, zero, suc, ◌+◌, ◌*◌, ◌/◌, ◌<◌, ◌≡◌, refl, sym, subst, ap, ◌∙◌, true, false, List, [], ◌∷◌, ok,
  err, length, is_empty, take, drop, map, arith, length-take, length-drop,
}
use temporal_nbd.BTree.{keys}
use temporal_nbd.Errors.{retryable, io}
use temporal_nbd.Geometry.Laws.{IsSized}
use temporal_nbd.Transport.{Bytes, BlockWrite}
use temporal_nbd.Transport.Mock.{MockTransport, new, mock_transport, write_batch}
use temporal_nbd.Engine.State.{Engine, DirtyCache, max_blocks_per_rpc}
use temporal_nbd.Engine.Flushing.{to_writes, flush_once}
use temporal_nbd.Engine.Operations.{write_blocks, flush, chunks_exact}
use temporal_nbd.Engine.WriteLaws.{Fits, write_blocks-eq}
use temporal_nbd.Engine.Chunks.{length-chunks_exact}
use temporal_nbd.Engine.Batches.{send_all, flush_once-send_all, in_batches}
use temporal_nbd.Engine.Sizes.{
  numbered, length-numbered, not_empty, put_all-numbered, in_batches_one, in_batches_two,
  flush_first, flush_second,
}
use temporal_nbd.Scenarios.EngineRuns.{test_geometry}
use temporal_nbd.Scenarios.LargeRuns.{
  numbers, element_is, large_engine, failing_second, flush_chunks_write_batches_to_contract_limit,
  flush_retries_only_failed_tail_chunk,
}
use temporal_nbd.Tests.Setup.{clock}

length-numbers : (start n : ℕ) → length (numbers start n) ≡ n * 4
unfolding numbers
length-numbers start zero = refl
length-numbers start (suc n) = omega (arith, length-numbers (suc start) n)

lbas-to_writes : (d : DirtyCache) → map (λ (w : BlockWrite). w.lba) (to_writes d) ≡ keys d
lbas-to_writes [] = refl
lbas-to_writes (e ∷ d) = ap (λ ks. e.0 ∷ ks) (lbas-to_writes d)

pub large-IsSized : IsSized (test_geometry 4 2000)
large-IsSized = record {
  block_pos = omega arith;
  block_bound = omega arith;
  size_bound = omega arith;
  tiles = refl;
  size_pos = omega arith;
}

-- The blocks of the payload.
abbrev chunks : List Bytes
chunks = chunks_exact (length (numbers 0 700) / 4) 4 (numbers 0 700)

abbrev cache : DirtyCache
cache = numbered 0 chunks

length-cache : length cache ≡ 700
length-cache =
    length-numbered 0 chunks
    ∙ length-chunks_exact (length (numbers 0 700) / 4) 4 (numbers 0 700)
    ∙ omega (arith, length-numbers 0 700)

-- The write of the payload enters the cache.
written :
    (t : MockTransport)
    → write_blocks mock_transport clock 0 (numbers 0 700) (large_engine t)
      ≡ (ok tt, record (large_engine t) { dirty = cache })
written t =
    let long = length-numbers 0 700 in
    let fits : Fits (test_geometry 4 2000) 0 (numbers 0 700) = record {
      some_bytes = omega (arith, long);
      whole = omega (arith, long);
      inside = omega (arith, long);
    } in
    write_blocks-eq clock 0 (numbers 0 700) (large_engine t) large-IsSized fits
    ∙ rw (put_all-numbered 0 chunks) (rw length-cache refl)

-- Both batches of a cache over a transport that fails nothing.
sends_both :
    (b c : DirtyCache)
    → let (answer, left, t) = send_all mock_transport (b ∷ c ∷ []) (new 4) in
      (answer ≡ ok tt) × (left ≡ []) × (t.write_batches ≡ keys b ∷ keys c ∷ [])
unfolding send_all write_batch
sends_both b c = (refl, refl, rw (lbas-to_writes b, lbas-to_writes c) refl)

length-keys : (d : DirtyCache) → length (keys d) ≡ length d
length-keys [] = refl
length-keys (e ∷ d) = ap suc (length-keys d)

abbrev first : DirtyCache
first = take max_blocks_per_rpc cache

abbrev second : DirtyCache
second = drop max_blocks_per_rpc cache

length-first : length (keys first) ≡ 512
length-first = length-keys first ∙ omega (arith, length-take max_blocks_per_rpc cache, length-cache)

length-second : length (keys second) ≡ 188
length-second =
    length-keys second ∙ omega (arith, length-drop max_blocks_per_rpc cache, length-cache)

cache_batches : in_batches cache ≡ first ∷ second ∷ []
cache_batches = in_batches_two cache (omega (arith, length-cache)) (omega (arith, length-cache))

abbrev filled : MockTransport → Engine mock_transport
filled t = record (large_engine t) { dirty = cache }

cache-not_empty : is_empty cache ≡ false
cache-not_empty = not_empty cache (omega (arith, length-cache))

abbrev after_both : MockTransport
after_both = (send_all mock_transport (first ∷ second ∷ []) (new 4)).2

flushed :
    flush mock_transport clock (filled (new 4))
    ≡ (ok tt, record (filled (new 4)) { transport = after_both; dirty = [] })
flushed =
    let both = sends_both first second in
    flush_first clock (filled (new 4)) cache-not_empty _ (
      flush_once-send_all mock_transport (filled (new 4)) ∙ rw (cache_batches, both.0, both.1) refl)

flush_chunks_passes : flush_chunks_write_batches_to_contract_limit clock ≡ true
unfolding flush_chunks_write_batches_to_contract_limit
flush_chunks_passes =
    rw (written (new 4), flushed, (sends_both first second).2)
      (rw (length-first, length-second) refl)

-- The second batch fails once.
fails_second :
    (b c : DirtyCache)
    → let (answer, left, t) = send_all mock_transport (b ∷ c ∷ []) failing_second in
      let (answer', left', t') = send_all mock_transport (c ∷ []) t in
      (answer ≡ err (retryable "second chunk transient error"))
      × (left ≡ c ∷ [])
      × (answer' ≡ ok tt)
      × (left' ≡ [])
      × (t'.write_batches ≡ keys b ∷ keys c ∷ [])
unfolding send_all write_batch
fails_second b c = (refl, refl, refl, refl, rw (lbas-to_writes b, lbas-to_writes c) refl)

abbrev after_first : MockTransport
after_first = (send_all mock_transport (first ∷ second ∷ []) failing_second).2

abbrev after_second : MockTransport
after_second = (send_all mock_transport (second ∷ []) after_first).2

abbrev half : Engine mock_transport
half = record (filled failing_second) { transport = after_first; dirty = second }

tail_batches : in_batches second ≡ second ∷ []
tail_batches =
    let long = length-drop max_blocks_per_rpc cache in
    in_batches_one second (omega (arith, long, length-cache)) (omega (arith, long, length-cache))

first_attempt :
    flush_once mock_transport (filled failing_second)
    ≡ (err (io "second chunk transient error", true), half)
first_attempt =
    let (failed, left, x, y, z) = fails_second first second in
    flush_once-send_all mock_transport (filled failing_second)
    ∙ rw (cache_batches, failed, left)
        (ap (λ d. (err (io "second chunk transient error", true), record half { dirty = d }))
          (append-nil second))

second_attempt :
    flush_once mock_transport half ≡ (ok tt, record half { transport = after_second; dirty = [] })
second_attempt =
    let (x, y, done, left, z) = fails_second first second in
    flush_once-send_all mock_transport half ∙ rw (tail_batches, done, left) refl

retried :
    flush mock_transport clock (filled failing_second)
    ≡ (ok tt, record half { transport = after_second; dirty = [] })
retried =
    flush_second clock (filled failing_second) cache-not_empty half _ _ first_attempt (omega arith)
      second_attempt

element-numbered :
    (lba j : ℕ) (cs : List Bytes)
    → j < length cs
    → element_is j (lba + j) (keys (numbered lba cs)) ≡ true
element-numbered lba j [] h = absurd (omega arith)
element-numbered lba zero (c ∷ cs) h = ground arith
element-numbered lba (suc j) (c ∷ cs) h =
    subst (λ v. element_is j v (keys (numbered (suc lba) cs)) ≡ true) (omega arith)
      (element-numbered (suc lba) j cs (omega arith))

take-numbered : (n lba : ℕ) (cs : List Bytes) → take n (numbered lba cs) ≡ numbered lba (take n cs)
take-numbered zero lba cs = refl
take-numbered (suc n) lba [] = refl
take-numbered (suc n) lba (c ∷ cs) = ap (λ d. (lba, c) ∷ d) (take-numbered n (suc lba) cs)

drop-numbered :
    (n lba : ℕ) (cs : List Bytes) → drop n (numbered lba cs) ≡ numbered (n + lba) (drop n cs)
drop-numbered zero lba cs = ap (λ k. numbered k cs) (omega arith)
drop-numbered (suc n) lba [] = refl
drop-numbered (suc n) lba (c ∷ cs) =
    drop-numbered n (suc lba) cs ∙ ap (λ k. numbered k (drop n cs)) (omega arith)

length-chunks : length chunks ≡ 700
length-chunks = sym (length-numbered 0 chunks) ∙ length-cache

first_elements : (j : ℕ) → j < 512 → element_is j (0 + j) (keys first) ≡ true
first_elements j h =
    subst (λ d. element_is j (0 + j) (keys d) ≡ true)
      (sym (take-numbered max_blocks_per_rpc 0 chunks))
      (element-numbered 0 j (take max_blocks_per_rpc chunks)
        (omega (arith, length-take max_blocks_per_rpc chunks, length-chunks)))

second_elements : (j : ℕ) → j < 188 → element_is j (512 + j) (keys second) ≡ true
second_elements j h =
    subst (λ d. element_is j (512 + j) (keys d) ≡ true)
      (sym (drop-numbered max_blocks_per_rpc 0 chunks))
      (element-numbered 512 j (drop max_blocks_per_rpc chunks)
        (omega (arith, length-drop max_blocks_per_rpc chunks, length-chunks)))

flush_retries_tail_passes : flush_retries_only_failed_tail_chunk clock ≡ true
unfolding flush_retries_only_failed_tail_chunk
flush_retries_tail_passes =
    let (v, w, x, y, log) = fails_second first second in
    rw (written failing_second, retried, log)
      (rw
        (
          length-first,
          length-second,
          first_elements 0 (omega arith),
          first_elements 511 (omega arith),
          second_elements 0 (omega arith),
          second_elements 187 (omega arith),
        )
        refl)
