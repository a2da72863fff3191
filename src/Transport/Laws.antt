-- ===== src/Transport/Laws.antt =====
-- What an engine may assume of the volume behind a transport.
use temporal_nbd.Prelude.{ℕ, ◌≡◌, List, ok, All, length}
use temporal_nbd.Transport.{Bytes, BlockWrite, BackendTransport, Volume, store_all, blocks}

-- The batch writes no block at `lba`.
abbrev pub Misses : ℕ → List BlockWrite → Type 0
Misses lba ws = All (λ w. ¬ (w.lba ≡ lba)) ws

-- Every block of the batch has the volume's block size.
abbrev pub AreBlocks : ℕ → List BlockWrite → Type 0
AreBlocks block_size ws = All (λ w. length w.block_data ≡ block_size) ws

-- A transport over a volume of blocks of one size. `IsSound` is the transport's own invariant.
-- A read answers with the blocks asked for, and an acknowledged batch is stored as a whole. A
-- batch that fails may be stored in part, but touches no address that it does not name.
pub record BlockStore (T : BackendTransport) (block_size : ℕ) : Type 1 where
  pub IsSound : T.State → Type 0
  pub contents : T.State → Volume
  pub length-contents : (s : T.State) (lba : ℕ) → IsSound s → length (contents s lba) ≡ block_size
  pub read-IsSound :
      (start count : ℕ) (s : T.State) → IsSound s → IsSound (T.read_blocks start count s).1
  pub read_answer :
      (start count : ℕ) (s : T.State) {bytes : Bytes}
      → IsSound s
      → (T.read_blocks start count s).0 ≡ ok bytes
      → bytes ≡ blocks (contents s) start count
  pub read_keeps :
      (start count lba : ℕ) (s : T.State)
      → IsSound s
      → contents (T.read_blocks start count s).1 lba ≡ contents s lba
  pub write-IsSound :
      (ws : List BlockWrite) (s : T.State)
      → IsSound s
      → AreBlocks block_size ws
      → IsSound (T.write_batch ws s).1
  pub write_stores :
      (ws : List BlockWrite) (lba : ℕ) (s : T.State)
      → IsSound s
      → AreBlocks block_size ws
      → (T.write_batch ws s).0 ≡ ok tt
      → contents (T.write_batch ws s).1 lba ≡ store_all ws (contents s) lba
  pub write_misses :
      (ws : List BlockWrite) (lba : ℕ) (s : T.State)
      → IsSound s
      → AreBlocks block_size ws
      → Misses lba ws
      → contents (T.write_batch ws s).1 lba ≡ contents s lba
  pub disconnect-IsSound : (s : T.State) → IsSound s → IsSound (T.disconnect s).1
  pub disconnect_keeps :
      (lba : ℕ) (s : T.State) → IsSound s → contents (T.disconnect s).1 lba ≡ contents s lba
