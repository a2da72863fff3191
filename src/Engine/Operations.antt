-- ===== src/Engine/Operations.antt =====
-- The methods of `BlockDeviceEngine` that change the engine's state (src/engine.rs), and the trait
-- itself as a record.
use temporal_nbd.Prelude.{
  ℕ, zero, suc, none, some, List, [], ◌∷◌, leb, if◌then◌else◌, Result, ok, err, ◌>>=◌, ◌>>◌, is_err,
  length, take, drop, checked_add,
}
use temporal_nbd.BTree.{insert}
use temporal_nbd.Errors.{EngineError, invalid_request}
use temporal_nbd.Geometry.{VolumeGeometry}
use temporal_nbd.Transport.{Bytes, BackendTransport}
use temporal_nbd.Engine.State.{
  DirtyCache, Engine, map_transport, ensure_range, ensure_write_payload,
}
use temporal_nbd.Engine.Reading.{read_blocks}
use temporal_nbd.Engine.Flushing.{Clock, flush_with_deadline}

-- `for (index, chunk) in data.chunks_exact(block_size).enumerate()`: the chunks.
abbrev pub chunks_exact : ℕ → ℕ → Bytes → List Bytes
chunks_exact zero block_size payload = []
chunks_exact (suc count) block_size payload =
    take block_size payload ∷ chunks_exact count block_size (drop block_size payload)

-- The body of that loop. The dirty cache comes back after an error too.
unfoldable pub insert_chunks :
    ℕ → ℕ → List Bytes → DirtyCache → Result (Unit {0}) EngineError × DirtyCache
insert_chunks start_lba index [] dirty = (ok tt, dirty)
insert_chunks start_lba index (chunk ∷ chunks) dirty = elim (checked_add start_lba index) [
  | none ↦ (err (invalid_request "write LBA overflow"), dirty)
  | some lba ↦ insert_chunks start_lba (suc index) chunks (insert lba chunk dirty)
]

-- The two checks of `write_blocks`: the number of blocks of a payload that may be written.
unfoldable pub check_write : VolumeGeometry → ℕ → Bytes → Result ℕ EngineError
check_write g start_lba payload = do
  block_count ← ensure_write_payload g payload
  ensure_range g start_lba block_count
  ok block_count

module _ (T : BackendTransport) (C : Clock T) where
  -- The buffered write: the blocks enter the dirty cache, and a cache at its mark is flushed.
  unfoldable pub write_blocks : ℕ → Bytes → Engine T → Result (Unit {0}) EngineError × Engine T
  unfolding insert_chunks check_write
  write_blocks start_lba payload e = elim (check_write e.geometry start_lba payload) [
    | err x ↦ (err x, e)
    | ok block_count ↦
        let (buffered, dirty) =
          insert_chunks start_lba 0 (chunks_exact block_count e.geometry.block_size_bytes payload)
            e.dirty in
        let e' : Engine T = record e { dirty = dirty } in
        elim buffered [
          | err x ↦ (err x, e')
          | ok _ ↦
              if leb e.config.dirty_high_watermark_blocks (length dirty)
              then flush_with_deadline T C e.config.flush_retry_deadline e'
              else (ok tt, e')
        ]
  ]

  unfoldable pub flush : Engine T → Result (Unit {0}) EngineError × Engine T
  flush e = flush_with_deadline T C e.config.flush_retry_deadline e

  -- A failed flush is reported before a failed disconnect.
  unfoldable pub disconnect : Engine T → Result (Unit {0}) EngineError × Engine T
  disconnect e =
      let (flush_result, e') = flush_with_deadline T C e.config.flush_retry_deadline e in
      let (disconnect_result, t) = T.disconnect e'.transport in
      let e'' : Engine T = record e' { transport = t } in
      elim disconnect_result [
        | err x ↦
            if is_err flush_result then (flush_result, e'') else (err (map_transport x).0, e'')
        | ok _ ↦ (flush_result, e'')
      ]

-- The trait, over the state of an engine.
pub record BlockDeviceEngine : Type 1 where
  pub State : Type 0
  pub read_blocks : ℕ → ℕ → State → Result Bytes EngineError × State
  pub write_blocks : ℕ → Bytes → State → Result (Unit {0}) EngineError × State
  pub flush : State → Result (Unit {0}) EngineError × State
  pub disconnect : State → Result (Unit {0}) EngineError × State

abbrev pub caching_engine : (T : BackendTransport) → Clock T → BlockDeviceEngine
caching_engine T C = record {
  State = Engine T;
  read_blocks = read_blocks T;
  write_blocks = write_blocks T C;
  flush = flush T C;
  disconnect = disconnect T C;
}
