-- ===== src/Geometry.antt =====
-- `VolumeGeometry` of src/engine.rs.
pub mod Laws
use temporal_nbd.Prelude.{ℕ, ◌/◌, ◌≤◌, ◌==◌, Result, ok, fail_if, ◌>>=◌, ◌>>◌, is_multiple_of, not}
use temporal_nbd.Errors.{EngineError, invalid_request}

pub record VolumeGeometry : Type 0 where
  pub size_bytes : ℕ
  pub block_size_bytes : ℕ
  pub total_blocks : ℕ

unfoldable pub new : ℕ → ℕ → Result VolumeGeometry EngineError
new size_bytes block_size_bytes = do
  fail_if (block_size_bytes == 0) (invalid_request "block_size_bytes must be > 0")
  fail_if (size_bytes == 0) (invalid_request "size_bytes must be > 0")
  fail_if (not (is_multiple_of size_bytes block_size_bytes))
      (invalid_request "size_bytes must be a multiple of block_size_bytes")
  ok (record {
    size_bytes = size_bytes;
    block_size_bytes = block_size_bytes;
    total_blocks = size_bytes / block_size_bytes;
  })
