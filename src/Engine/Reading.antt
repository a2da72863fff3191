-- ===== src/Engine/Reading.antt =====
-- The read path of src/engine.rs: chunked requests, the checks on the answers, and the overlay of
-- dirty blocks.
use temporal_nbd.Prelude.{
  ℕ, zero, suc, ◌+◌, ◌-◌, min, not, none, some, ◌<>◌, show, [], ◌∷◌, ◌==◌, if◌then◌else◌, Result,
  ok, err, ◌>>=◌, ◌>>◌, fail_if, ok_or_else, length, replicate, checked_add, checked_mul,
}
use temporal_nbd.BTree.{range}
use temporal_nbd.Errors.{EngineError, invalid_request, io}
use temporal_nbd.Geometry.{VolumeGeometry}
use temporal_nbd.Transport.{Bytes, BackendTransport}
use temporal_nbd.Transport.Blocks.{copy_into}
use temporal_nbd.Engine.State.{
  max_blocks_per_rpc, DirtyCache, Engine, map_transport, ensure_read_range,
}

-- The checks on the answer to one read request: its length in bytes.
abbrev pub accept_chunk : ℕ → ℕ → Bytes → Result ℕ EngineError
accept_chunk block_size chunk_count chunk = do
  chunk_len ← ok_or_else (checked_mul chunk_count block_size) (io "backend read size overflow")
  fail_if (not (length chunk == chunk_len)) (
      io (
        "backend returned "
        <> (show (length chunk)
            <> (" bytes for "
                <> (show chunk_count <> (" blocks (expected " <> (show chunk_len <> ")")))))))
  ok chunk_len

-- The loop over the dirty blocks of the range, which copies each over the output. The index of
-- a block in the range fits into `usize`.
unfoldable pub overlay_dirty : ℕ → ℕ → DirtyCache → Bytes → Result Bytes EngineError
overlay_dirty block_size start_lba [] output = ok output
overlay_dirty block_size start_lba ((lba, block_data) ∷ d) output =
    let rest =
      λ (offset : ℕ). overlay_dirty block_size start_lba d (copy_into output offset block_data) in
    do
      fail_if (not (length block_data == block_size)) (
          io (
            "dirty cache block "
            <> (show lba <> (" has unexpected size " <> show (length block_data)))))
      offset ←
          ok_or_else (checked_mul (lba - start_lba) block_size) (io "dirty cache offset overflow")
      rest offset

-- The checks of `read_blocks`: the size of the answer in bytes.
unfoldable pub check_read : VolumeGeometry → ℕ → ℕ → Result ℕ EngineError
check_read g start_lba block_count = do
  ensure_read_range g start_lba block_count
  ok_or_else (checked_mul block_count g.block_size_bytes)
      (invalid_request "requested read size is too large")

module _ (T : BackendTransport) where
  -- The loop `while remaining > 0`. The fuel is the number of blocks, as each round reads one.
  unfoldable pub read_chunks :
      ℕ → ℕ → ℕ → ℕ → ℕ → Bytes → T.State → Result Bytes EngineError × T.State
  read_chunks zero block_size remaining current_lba out_offset output t = (ok output, t)
  read_chunks (suc fuel) block_size remaining current_lba out_offset output t =
      let chunk_count : ℕ = min remaining max_blocks_per_rpc in
      let (answer, t') = T.read_blocks current_lba chunk_count t in
      let rest = λ (chunk : Bytes) (chunk_len next_lba : ℕ).
        read_chunks fuel block_size (remaining - chunk_count) next_lba (out_offset + chunk_len)
          (copy_into output out_offset chunk) t' in
      let round : Result Bytes EngineError × T.State = elim answer [
        | err e ↦ (err (map_transport e).0, t')
        | ok chunk ↦ elim (accept_chunk block_size chunk_count chunk) [
          | err e ↦ (err e, t')
          | ok chunk_len ↦ elim (checked_add current_lba chunk_count) [
            | none ↦ (err (io "read cursor overflow"), t')
            | some next_lba ↦ rest chunk chunk_len next_lba
          ]
        ]
      ] in
      if remaining == 0 then (ok output, t) else round

  -- The answer of `read_blocks` once the chunks are read.
  unfoldable pub finish_read : ℕ → ℕ → Engine T → Bytes → Result Bytes EngineError
  unfolding overlay_dirty
  finish_read start_lba block_count e output = do
    end_lba ← ok_or_else (checked_add start_lba block_count) (invalid_request "read range overflow")
    overlay_dirty e.geometry.block_size_bytes start_lba (range start_lba end_lba e.dirty) output

  unfoldable pub read_blocks : ℕ → ℕ → Engine T → Result Bytes EngineError × Engine T
  unfolding read_chunks finish_read check_read
  read_blocks start_lba block_count e = elim (check_read e.geometry start_lba block_count) [
    | err x ↦ (err x, e)
    | ok total_len ↦
        let (read, t) =
          read_chunks block_count e.geometry.block_size_bytes block_count start_lba 0
            (replicate total_len 0) e.transport in
        (read >>= finish_read start_lba block_count e, record e { transport = t })
  ]
