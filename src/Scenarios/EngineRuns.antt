-- ===== src/Scenarios/EngineRuns.antt =====
-- The tests at the end of src/engine.rs over `MockTransport`. A test holds where all its assertions do.
-- Those over several hundred blocks are in Scenarios/LargeRuns.antt.
use temporal_nbd.Prelude.{
  ℕ, ◌*◌, Bool, true, false, ◌&&◌, none, some, [], ◌∷◌, ◌==◌, Result, ok, err, length, take, drop,
  replicate,
}
use temporal_nbd.BTree.{lookup}
use temporal_nbd.Errors.{EngineError, invalid_request, io, errno, einval, retryable}
use temporal_nbd.Geometry
use temporal_nbd.Geometry.{VolumeGeometry}
use temporal_nbd.Transport.{Bytes}
use temporal_nbd.Transport.Mock.{MockTransport, new, with_block, mock_transport}
use temporal_nbd.Engine.State.{EngineConfig, Engine, dirty_count, into_transport}
use temporal_nbd.Engine.State
use temporal_nbd.Engine.Flushing.{Clock}
use temporal_nbd.Engine.Reading.{read_blocks}
use temporal_nbd.Engine.Operations.{write_blocks, flush, disconnect}

-- `assert_eq!` on bytes.
abbrev pub same_bytes : Bytes → Bytes → Bool
same_bytes [] [] = true
same_bytes [] (y ∷ ys) = false
same_bytes (x ∷ xs) [] = false
same_bytes (x ∷ xs) (y ∷ ys) = (x == y) && same_bytes xs ys

abbrev pub is_ok : {A : Type 0} → Result A EngineError → Bool
is_ok (ok a) = true
is_ok (err x) = false

-- `matches!(err, EngineError::InvalidRequest { .. })` and `matches!(err, EngineError::Io { .. })`
abbrev pub fails_invalid : {A : Type 0} → Result A EngineError → Bool
fails_invalid (err (invalid_request message)) = true
fails_invalid (err (io message)) = false
fails_invalid (ok a) = false

abbrev pub fails_io : {A : Type 0} → Result A EngineError → Bool
fails_io (err (io message)) = true
fails_io (err (invalid_request message)) = false
fails_io (ok a) = false

abbrev pub fails_einval : {A : Type 0} → Result A EngineError → Bool
fails_einval (err x) = errno x == einval
fails_einval (ok a) = false

-- `transport.backend.get(&lba)` is this block.
abbrev pub holds_block : ℕ → Bytes → MockTransport → Bool
holds_block lba block m = elim (lookup lba m.backend) [
  | some stored ↦ same_bytes stored block
  | none ↦ false
]

abbrev pub data_of : Result Bytes EngineError → Bytes
data_of (ok bytes) = bytes
data_of (err x) = []

-- `geometry`, for the sizes of the tests, which `VolumeGeometry::new` accepts.
abbrev pub test_geometry : (block_size total_blocks : ℕ) → VolumeGeometry
test_geometry block_size total_blocks = record {
  size_bytes = block_size * total_blocks;
  block_size_bytes = block_size;
  total_blocks = total_blocks;
}

abbrev pub test_config : EngineConfig
test_config = record {
  dirty_high_watermark_blocks = 4096;
  flush_retry_deadline = 50 * 1_000_000;
  flush_retry_interval = 1_000_000;
}

module _ (C : Clock mock_transport) where
  unfoldable pub read_overlays_dirty_blocks : Bool
  read_overlays_dirty_blocks =
      let transport = with_block 3 0x33 (with_block 2 0x22 (with_block 1 0x11 (new 4))) in
      let e = State.new mock_transport (test_geometry 4 16) transport test_config in
      let (written, e1) = write_blocks mock_transport C 2 (replicate 4 0xAA) e in
      let (answer, e2) = read_blocks mock_transport 1 3 e1 in
      let bytes = data_of answer in
      is_ok written
      && (is_ok answer
          && (same_bytes (take 4 bytes) (replicate 4 0x11)
              && (same_bytes (take 4 (drop 4 bytes)) (replicate 4 0xAA)
                  && same_bytes (take 4 (drop 8 bytes)) (replicate 4 0x33))))

  unfoldable pub high_watermark_flush_failure_returns_io_and_preserves_dirty : Bool
  high_watermark_flush_failure_returns_io_and_preserves_dirty =
      let failing : MockTransport = record (new 4) {
        fail_writes = replicate 64 (retryable "temporary backend outage");
      } in
      let config : EngineConfig = record {
        dirty_high_watermark_blocks = 2;
        flush_retry_deadline = 5 * 1_000_000;
        flush_retry_interval = 1_000_000;
      } in
      let e = State.new mock_transport (test_geometry 4 128) failing config in
      let (first, e1) = write_blocks mock_transport C 0 (replicate 4 1) e in
      let (second, e2) = write_blocks mock_transport C 1 (replicate 4 2) e1 in
      is_ok first && (fails_io second && (dirty_count mock_transport e2 == 2))

  unfoldable pub flush_retries_retryable_failures_until_success : Bool
  flush_retries_retryable_failures_until_success =
      let failing : MockTransport = record (new 4) {
        fail_writes = retryable "transient error" ∷ [];
      } in
      let e = State.new mock_transport (test_geometry 4 128) failing test_config in
      let (written, e1) = write_blocks mock_transport C 0 (1 ∷ 2 ∷ 3 ∷ 4 ∷ []) e in
      let (flushed, e2) = flush mock_transport C e1 in
      is_ok written
      && (is_ok flushed
          && ((dirty_count mock_transport e2 == 0)
              && (length (into_transport mock_transport e2).write_batches == 1)))

  unfoldable pub write_rejects_unaligned_payload : Bool
  write_rejects_unaligned_payload =
      let e = State.new mock_transport (test_geometry 4 128) (new 4) test_config in
      let (written, e1) = write_blocks mock_transport C 0 (1 ∷ 2 ∷ 3 ∷ []) e in
      fails_invalid written && fails_einval written

  unfoldable pub disconnect_flushes_then_disconnects_transport : Bool
  disconnect_flushes_then_disconnects_transport =
      let e = State.new mock_transport (test_geometry 4 128) (new 4) test_config in
      let (written, e1) = write_blocks mock_transport C 0 (1 ∷ 2 ∷ 3 ∷ 4 ∷ []) e in
      let (left, e2) = disconnect mock_transport C e1 in
      let transport = into_transport mock_transport e2 in
      is_ok written
      && (is_ok left && (transport.disconnected && holds_block 0 (1 ∷ 2 ∷ 3 ∷ 4 ∷ []) transport))

unfoldable pub geometry_validation_rejects_unaligned_size : Bool
geometry_validation_rejects_unaligned_size = fails_invalid (Geometry.new 1000 512)

unfoldable pub geometry_validation_rejects_zero_block_size : Bool
geometry_validation_rejects_zero_block_size = fails_invalid (Geometry.new 1024 0)
