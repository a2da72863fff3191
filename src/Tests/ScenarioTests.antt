-- ===== src/Tests/ScenarioTests.antt =====
-- The unit tests hold.
use temporal_nbd.Prelude.{◌≡◌, refl, true}
use temporal_nbd.Scenarios.EngineRuns.{
  read_overlays_dirty_blocks, high_watermark_flush_failure_returns_io_and_preserves_dirty,
  flush_retries_retryable_failures_until_success, write_rejects_unaligned_payload,
  disconnect_flushes_then_disconnects_transport, geometry_validation_rejects_unaligned_size,
  geometry_validation_rejects_zero_block_size,
}
use temporal_nbd.Scenarios.BridgeRuns.{
  offset_len_to_lba_rejects_unaligned_offset, offset_len_to_lba_translates_aligned_ranges,
  run_engine_loop_disconnects_on_command, read_command_returns_data,
}
use temporal_nbd.Tests.Setup.{clock}

overlays_passes : read_overlays_dirty_blocks clock ≡ true
unfolding read_overlays_dirty_blocks temporal_nbd.Engine.Operations.write_blocks
    temporal_nbd.Engine.Reading.read_blocks temporal_nbd.Transport.Mock.read_blocks
overlays_passes = refl

high_watermark_passes : high_watermark_flush_failure_returns_io_and_preserves_dirty clock ≡ true
unfolding high_watermark_flush_failure_returns_io_and_preserves_dirty
    temporal_nbd.Engine.Operations.write_blocks temporal_nbd.Engine.Flushing.flush_with_deadline
    temporal_nbd.Engine.Flushing.flush_once temporal_nbd.Transport.Mock.write_batch
high_watermark_passes = refl

retries_passes : flush_retries_retryable_failures_until_success clock ≡ true
unfolding flush_retries_retryable_failures_until_success temporal_nbd.Engine.Operations.write_blocks
    temporal_nbd.Engine.Operations.flush temporal_nbd.Engine.Flushing.flush_with_deadline
    temporal_nbd.Engine.Flushing.flush_once temporal_nbd.Transport.Mock.write_batch
retries_passes = refl

unaligned_passes : write_rejects_unaligned_payload clock ≡ true
unfolding write_rejects_unaligned_payload temporal_nbd.Engine.Operations.write_blocks
unaligned_passes = refl

disconnect_passes : disconnect_flushes_then_disconnects_transport clock ≡ true
unfolding disconnect_flushes_then_disconnects_transport temporal_nbd.Engine.Operations.write_blocks
    temporal_nbd.Engine.Operations.disconnect temporal_nbd.Transport.Mock.disconnect
    temporal_nbd.Engine.Flushing.flush_with_deadline temporal_nbd.Engine.Flushing.flush_once
    temporal_nbd.Transport.Mock.write_batch
disconnect_passes = refl

unaligned_size_passes : geometry_validation_rejects_unaligned_size ≡ true
unfolding geometry_validation_rejects_unaligned_size temporal_nbd.Geometry.new
unaligned_size_passes = refl

zero_block_size_passes : geometry_validation_rejects_zero_block_size ≡ true
unfolding geometry_validation_rejects_zero_block_size temporal_nbd.Geometry.new
zero_block_size_passes = refl

unaligned_offset_passes : offset_len_to_lba_rejects_unaligned_offset ≡ true
unfolding offset_len_to_lba_rejects_unaligned_offset temporal_nbd.Bridge.offset_len_to_lba
unaligned_offset_passes = refl

aligned_passes : offset_len_to_lba_translates_aligned_ranges ≡ true
unfolding offset_len_to_lba_translates_aligned_ranges temporal_nbd.Bridge.offset_len_to_lba
aligned_passes = refl

loop_passes : run_engine_loop_disconnects_on_command ≡ true
unfolding run_engine_loop_disconnects_on_command temporal_nbd.Bridge.run_engine_loop
    temporal_nbd.Bridge.engine_loop temporal_nbd.Bridge.handle_request
loop_passes = refl

read_passes : read_command_returns_data ≡ true
unfolding read_command_returns_data temporal_nbd.Bridge.run_engine_loop
    temporal_nbd.Bridge.engine_loop temporal_nbd.Bridge.handle_request
    temporal_nbd.Bridge.offset_len_to_lba
read_passes = refl
