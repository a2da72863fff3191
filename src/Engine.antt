-- ===== src/Engine.antt =====
-- `CachingBlockEngine` of src/engine.rs over any transport, and its theorems. `State` has the
-- configuration, the state and the range checks, `Reading` the read path, `Flushing` the flush
-- with its retries, `Operations` the methods of the trait `BlockDeviceEngine`.
pub mod State
pub mod Reading
pub mod Flushing
pub mod Operations
pub mod Retry
pub mod View
pub mod FlushLaws
pub mod FlushResults
pub mod Chunks
pub mod WriteLaws
pub mod ReadLoop
pub mod ReadLaws
pub mod Settled
pub mod Recovery
pub mod Batches
pub mod Sizes
pub mod Coherence
pub mod Contract
