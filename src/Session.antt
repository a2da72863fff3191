-- ===== src/Session.antt =====
-- src/session.rs: the transport over the gRPC client of the volume service. It opens the volume,
-- reconnects after a failure, repeats what may be repeated, and sends a batch in parts.
pub mod Retry
pub mod Backoff
pub mod Service
pub mod Opening
pub mod Requests
pub mod RetryLaws
pub mod BackoffLaws
pub mod Volume
pub mod RequestLaws
pub mod WriteLaws
pub mod Store
pub mod OpeningLaws
pub mod Meter
pub mod Payload
pub mod Counters
pub mod Limits
pub mod Outlasting
pub mod Lasting
