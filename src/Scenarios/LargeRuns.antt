-- ===== src/Scenarios/LargeRuns.antt =====
-- The tests at the end of src/engine.rs over several hundred blocks.
use temporal_nbd.Prelude.{
  ℕ, zero, suc, ◌*◌, ◌/◌, ◌%◌, Bool, false, ◌&&◌, List, [], ◌∷◌, ◌++◌, ◌==◌, length,
}
use temporal_nbd.Errors.{retryable}
use temporal_nbd.Transport.{Bytes}
use temporal_nbd.Transport.Mock.{MockTransport, new, mock_transport}
use temporal_nbd.Engine.State.{Engine}
use temporal_nbd.Engine.State
use temporal_nbd.Engine.Flushing.{Clock}
use temporal_nbd.Engine.Reading.{read_blocks}
use temporal_nbd.Engine.Operations.{write_blocks, flush}
use temporal_nbd.Scenarios.EngineRuns.{is_ok, data_of, test_geometry, test_config}

-- The bytes of a number, the lowest first.
abbrev pub to_le_bytes : ℕ → ℕ → Bytes
to_le_bytes zero x = []
to_le_bytes (suc width) x = x % 256 ∷ to_le_bytes width (x / 256)

-- The payload of the tests: the numbers of 32 bits from `start` on.
unfoldable pub numbers : (start count : ℕ) → Bytes
numbers start zero = []
numbers start (suc count) = to_le_bytes 4 start ++ numbers (suc start) count

-- `assert_eq!(xs[i], v)`
abbrev pub element_is : ℕ → ℕ → List ℕ → Bool
element_is i v [] = false
element_is zero v (x ∷ xs) = x == v
element_is (suc i) v (x ∷ xs) = element_is i v xs

-- `assert_eq!(batches[i].len(), n)` and `assert_eq!(batches[i][j], v)`
abbrev pub batch_has : ℕ → ℕ → List (List ℕ) → Bool
batch_has i n [] = false
batch_has zero n (b ∷ bs) = length b == n
batch_has (suc i) n (b ∷ bs) = batch_has i n bs

abbrev pub batch_element_is : ℕ → ℕ → ℕ → List (List ℕ) → Bool
batch_element_is i j v [] = false
batch_element_is zero j v (b ∷ bs) = element_is j v b
batch_element_is (suc i) j v (b ∷ bs) = batch_element_is i j v bs

abbrev pub two_calls : (start count start' count' : ℕ) → List (ℕ × ℕ) → Bool
two_calls s n s' n' [] = false
two_calls s n s' n' (c ∷ []) = false
two_calls s n s' n' (c ∷ d ∷ []) = (c.0 == s) && ((c.1 == n) && ((d.0 == s') && (d.1 == n')))
two_calls s n s' n' (c ∷ d ∷ x ∷ xs) = false

abbrev pub large_engine : MockTransport → Engine mock_transport
large_engine transport = State.new mock_transport (test_geometry 4 2000) transport test_config

-- The transport of the test that fails the second batch once.
abbrev pub failing_second : MockTransport
failing_second = record (new 4) {
  fail_on_write_calls = 2 ∷ [];
  fail_writes = retryable "second chunk transient error" ∷ [];
}

module _ (C : Clock mock_transport) where
  unfoldable pub flush_chunks_write_batches_to_contract_limit : Bool
  flush_chunks_write_batches_to_contract_limit =
      let (written, e1) = write_blocks mock_transport C 0 (numbers 0 700) (large_engine (new 4)) in
      let (flushed, e2) = flush mock_transport C e1 in
      let batches = e2.transport.write_batches in
      is_ok written
      && (is_ok flushed
          && ((length batches == 2) && (batch_has 0 512 batches && batch_has 1 188 batches)))

  unfoldable pub flush_retries_only_failed_tail_chunk : Bool
  flush_retries_only_failed_tail_chunk =
      let (written, e1) =
        write_blocks mock_transport C 0 (numbers 0 700) (large_engine failing_second) in
      let (flushed, e2) = flush mock_transport C e1 in
      let batches = e2.transport.write_batches in
      is_ok written
      && (is_ok flushed
          && ((length batches == 2)
              && (batch_has 0 512 batches
                  && (batch_has 1 188 batches
                      && (batch_element_is 0 0 0 batches
                          && (batch_element_is 0 511 511 batches
                              && (batch_element_is 1 0 512 batches
                                  && batch_element_is 1 187 699 batches)))))))

unfoldable pub read_chunks_requests_to_contract_limit : Bool
read_chunks_requests_to_contract_limit =
    let (answer, e) = read_blocks mock_transport 0 600 (large_engine (new 4)) in
    is_ok answer
    && ((length (data_of answer) == 600 * 4) && two_calls 0 512 512 88 e.transport.read_calls)
