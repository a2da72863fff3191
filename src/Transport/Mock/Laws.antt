-- ===== src/Transport/Mock/Laws.antt =====
-- `MockTransport` is a store of blocks in the sense of `BlockStore`.
use mathlib.Core.List.{append-nil, append_assoc}
use temporal_nbd.Prelude.{
  ℕ, zero, suc, ◌≡◌, refl, ◌∙◌, sym, subst, none, some, List, [], ◌∷◌, ◌++◌, ok, arith, length,
  replicate, length-replicate, All,
}
use temporal_nbd.BTree.{BTreeMap, lookup, insert}
use temporal_nbd.BTree.Laws.{lookup-insert, All-insert}
use temporal_nbd.Transport.{Bytes, BlockWrite, Volume, store, store_all, blocks}
use temporal_nbd.Transport.Laws.{BlockStore, Misses, AreBlocks}
use temporal_nbd.Transport.Batches.{store_all-Misses}
use temporal_nbd.Transport.Mock.{
  MockTransport, block_at, read_loop, read_blocks, insert_writes, write_batch, disconnect,
  mock_transport,
}

-- Every block that was written has the transport's block size.
abbrev pub IsSound : ℕ → MockTransport → Type 0
IsSound block_size m = (m.block_size ≡ block_size) × All (λ e. length e.1 ≡ block_size) m.backend

-- The block that a backend holds, where the block size is `block_size`.
abbrev held : ℕ → BTreeMap Bytes → Volume
held block_size d lba = elim (lookup lba d) [ some block ↦ block | none ↦ replicate block_size 0 ]

pub length-held :
    (block_size lba : ℕ) (d : BTreeMap Bytes)
    → All (λ e. length e.1 ≡ block_size) d
    → length (held block_size d lba) ≡ block_size
length-held block_size lba [] h = length-replicate block_size 0
length-held block_size lba (e ∷ d) h = ground (arith, length-held block_size lba d h.1)

read_loop-eq :
    (m : MockTransport) (lba count : ℕ) (out : Bytes)
    → read_loop m lba count out ≡ out ++ blocks (block_at m) lba count
unfolding read_loop
read_loop-eq m lba zero out = sym (append-nil out)
read_loop-eq m lba (suc count) out =
    read_loop-eq m (suc lba) count (out ++ block_at m lba) ∙ append_assoc out _ _

held-insert :
    (size k : ℕ) (block : Bytes) (d : BTreeMap Bytes) (lba : ℕ)
    → held size (insert k block d) lba ≡ store k block (held size d) lba
held-insert size k block d lba = ground (arith, lookup-insert lba k block d)

store_all_ext :
    (ws : List BlockWrite) (u v : Volume) (lba : ℕ)
    → ((j : ℕ) → u j ≡ v j)
    → store_all ws u lba ≡ store_all ws v lba
store_all_ext [] u v lba h = h lba
store_all_ext (w ∷ ws) u v lba h = store_all_ext ws _ _ lba (λ j. ground (arith, h j))

held-insert_writes :
    (size : ℕ) (ws : List BlockWrite) (d : BTreeMap Bytes) (lba : ℕ)
    → held size (insert_writes ws d) lba ≡ store_all ws (held size d) lba
unfolding insert_writes
held-insert_writes size [] d lba = refl
held-insert_writes size (w ∷ ws) d lba =
    held-insert_writes size ws (insert w.lba w.block_data d) lba
    ∙ store_all_ext ws _ _ lba (held-insert size w.lba w.block_data d)

insert_writes-All :
    (size : ℕ) (ws : List BlockWrite) (d : BTreeMap Bytes)
    → AreBlocks size ws
    → All (λ e. length e.1 ≡ size) d
    → All (λ e. length e.1 ≡ size) (insert_writes ws d)
unfolding insert_writes
insert_writes-All size [] d h a = a
insert_writes-All size (w ∷ ws) d h a =
    insert_writes-All size ws _ h.1 (All-insert (λ e. length e.1 ≡ size) w.lba w.block_data d h.0 a)

module _ (size : ℕ) (ws : List BlockWrite) (lba : ℕ) (m : MockTransport) (s : IsSound size m) where
  pub write-IsSound : AreBlocks size ws → IsSound size (write_batch ws m).1
  unfolding write_batch
  write-IsSound h = ground (arith, insert_writes-All size ws m.backend h s.1)

  pub write_stores :
      (write_batch ws m).0 ≡ ok tt
      → block_at (write_batch ws m).1 lba ≡ store_all ws (block_at m) lba
  unfolding write_batch
  write_stores e = ground (arith, held-insert_writes m.block_size ws m.backend lba)

  pub write-Misses : Misses lba ws → block_at (write_batch ws m).1 lba ≡ block_at m lba
  unfolding write_batch
  write-Misses h = ground (
    arith,
    held-insert_writes m.block_size ws m.backend lba,
    store_all-Misses ws (block_at m) lba h,
  )

pub read_blocks_answer :
    (start count : ℕ) (m : MockTransport) {bytes : Bytes}
    → (read_blocks start count m).0 ≡ ok bytes
    → bytes ≡ blocks (block_at m) start count
unfolding read_blocks
read_blocks_answer start count m e = cc (read_loop-eq m start count [])

unfoldable pub mock_store : (block_size : ℕ) → BlockStore mock_transport block_size
unfolding read_blocks disconnect
mock_store size = record {
  IsSound = IsSound size;
  contents = block_at;
  length-contents = λ m lba s.
      subst (λ n. length (held n m.backend lba) ≡ size) (sym s.0)
        (length-held size lba m.backend s.1);
  read-IsSound = λ start count m s. s;
  read_answer = λ start count m s e. read_blocks_answer start count m e;
  read_keeps = λ start count lba m s. refl;
  write-IsSound = λ ws m s h. write-IsSound size ws 0 m s h;
  write_stores = λ ws lba m s h e. write_stores size ws lba m s e;
  write_misses = λ ws lba m s h n. write-Misses size ws lba m s n;
  disconnect-IsSound = λ m s. s;
  disconnect_keeps = λ lba m s. refl;
}
