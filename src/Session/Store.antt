-- ===== src/Session/Store.antt =====
-- A session over a volume is a store of blocks for the engine.
use temporal_nbd.Prelude.{ℕ, refl}
use temporal_nbd.Transport.Laws.{BlockStore}
use temporal_nbd.Session.Service.{Service, VolumeSessionConfig}
use temporal_nbd.Session.Requests.{session_transport}
use temporal_nbd.Session.Volume.{VolumeService, IsOpen}
use temporal_nbd.Session.RequestLaws.{run_read_blocks_keeps, run_read_blocks_answer}
use temporal_nbd.Session.WriteLaws.{
  run_write_batch_stores, run_write_batch-Misses, run_write_batch-IsOpen,
}

unfoldable pub session_store :
    {W : Service} (config : VolumeSessionConfig W) {block_size : ℕ}
    → VolumeService W config.namespace config.volume_id block_size
    → BlockStore (session_transport W) block_size
session_store config V = record {
  IsSound = IsOpen config V;
  contents = λ state. V.contents state.1;
  length-contents = λ state lba o. V.length-contents state.1 lba o.0;
  read-IsSound = λ start count state o. (run_read_blocks_keeps config V start count state o).0;
  read_answer = λ start count state o e. run_read_blocks_answer config V start count state o e;
  read_keeps =
      λ start count lba state o. (run_read_blocks_keeps config V start count state o).1 lba;
  write-IsSound = λ ws state o a. run_write_batch-IsOpen config V ws state a o;
  write_stores = λ ws lba state o a e. run_write_batch_stores config V ws state a o lba e;
  write_misses = λ ws lba state o a m. run_write_batch-Misses config V ws state a o lba m;
  disconnect-IsSound = λ state o. o;
  disconnect_keeps = λ lba state o. refl;
}
