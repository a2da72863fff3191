-- ===== src/Engine/State.antt =====
-- The state of the engine in src/engine.rs, its constructor, and the checks on requests.
use temporal_nbd.Prelude.{
  ℕ, ◌*◌, ◌/◌, Bool, true, false, not, ◌<>◌, show, [], ltb, ◌==◌, if◌then◌else◌, Result, ok, ◌>>=◌,
  ◌>>◌, fail_if, ok_or_else, length, is_empty, is_multiple_of, checked_add,
}
use temporal_nbd.BTree.{BTreeMap}
use temporal_nbd.Errors.{TransportError, retryable, terminal, EngineError, invalid_request, io}
use temporal_nbd.Geometry.{VolumeGeometry}
use temporal_nbd.Transport.{Bytes, BackendTransport}

abbrev pub max_blocks_per_rpc : ℕ
max_blocks_per_rpc = 512

-- Durations are in nanoseconds.
pub record EngineConfig : Type 0 where
  pub dirty_high_watermark_blocks : ℕ
  pub flush_retry_deadline : ℕ
  pub flush_retry_interval : ℕ

abbrev pub default_config : EngineConfig
default_config = record {
  dirty_high_watermark_blocks = 2048;
  flush_retry_deadline = 20 * 1_000_000_000;
  flush_retry_interval = 200 * 1_000_000;
}

abbrev pub DirtyCache : Type 0
DirtyCache = BTreeMap Bytes

pub record CachingBlockEngine (T : BackendTransport) : Type 0 where
  pub geometry : VolumeGeometry
  pub transport : T.State
  pub config : EngineConfig
  pub dirty : DirtyCache

abbrev pub ensure_range : VolumeGeometry → ℕ → ℕ → Result (Unit {0}) EngineError
ensure_range g start_lba block_count = do
  end_lba ←
      ok_or_else (checked_add start_lba block_count) (invalid_request "request range overflows u64")
  fail_if (ltb g.total_blocks end_lba) (
      invalid_request (
        "request out of range: end_lba "
        <> (show end_lba <> (" > total_blocks " <> show g.total_blocks))))

abbrev pub ensure_read_range : VolumeGeometry → ℕ → ℕ → Result (Unit {0}) EngineError
ensure_read_range g start_lba block_count = do
  fail_if (block_count == 0) (invalid_request "block_count must be > 0")
  ensure_range g start_lba block_count

-- The number of blocks in a payload. Its conversion to `u64` cannot fail, as `usize` has 64 bits.
abbrev pub ensure_write_payload : VolumeGeometry → Bytes → Result ℕ EngineError
ensure_write_payload g payload = do
  fail_if (is_empty payload) (invalid_request "write payload must not be empty")
  fail_if (not (is_multiple_of (length payload) g.block_size_bytes)) (
      invalid_request (
        "write payload len "
        <> (show (length payload)
            <> (" is not aligned to block size " <> show g.block_size_bytes))))
  ok (length payload / g.block_size_bytes)

abbrev pub map_transport : TransportError → EngineError × Bool
map_transport (retryable message) = (io message, true)
map_transport (terminal message) = (io message, false)

abbrev pub Engine : BackendTransport → Type 0
Engine T = CachingBlockEngine T

module _ (T : BackendTransport) where
  abbrev pub new : VolumeGeometry → T.State → EngineConfig → Engine T
  new g transport config = record {
    geometry = g;
    transport = transport;
    config =
        if config.dirty_high_watermark_blocks == 0
        then record config { dirty_high_watermark_blocks = 1 }
        else config;
    dirty = [];
  }

  abbrev pub dirty_count : Engine T → ℕ
  dirty_count e = length e.dirty

  abbrev pub into_transport : Engine T → T.State
  into_transport e = e.transport
