-- ===== src/Engine/Settled.antt =====
-- Blocks that are not in the dirty cache: no operation puts one there but a write to its address,
-- and none changes what the volume holds at an address that has none.
use temporal_nbd.Prelude.{
  ℕ, zero, suc, ◌+◌, ◌/◌, ◌≡◌, refl, ◌∙◌, sym, inl, inr, false, ◌&&◌, none, [], ◌∷◌, arith, length,
  is_empty, drop, Result-cases, Bool-cases, leb, ltb,
}
use temporal_nbd.BTree.{lookup}
use temporal_nbd.BTree.Laws.{remove_all-take}
use temporal_nbd.Transport.{BackendTransport, Bytes}
use temporal_nbd.Transport.Laws.{BlockStore}
use temporal_nbd.Geometry.Laws.{IsSized}
use temporal_nbd.Engine.State.{Engine, DirtyCache, max_blocks_per_rpc}
use temporal_nbd.Engine.Flushing.{
  Clock, flush_batch, flush_batches, flush_once, flush_with_deadline,
}
use temporal_nbd.Engine.Operations.{chunks_exact, flush, write_blocks, disconnect}
use temporal_nbd.Engine.Retry.{flush_with_deadline_inv}
use temporal_nbd.Engine.View.{overlay, view}
use temporal_nbd.Engine.Chunks.{lookup-put_all_outside, length-chunks_exact}
use temporal_nbd.Engine.WriteLaws.{Fits, buffered, write_blocks-eq}

lookup-drop-none : (lba n : ℕ) (d : DirtyCache) → lookup lba d ≡ none → lookup lba (drop n d) ≡ none
lookup-drop-none lba zero d h = h
lookup-drop-none lba (suc n) [] h = refl
lookup-drop-none lba (suc n) (x ∷ d) h = lookup-drop-none lba n d (ground arith)

module _ {T : BackendTransport} (lba : ℕ) where
  -- The block is not in the cache.
  abbrev pub IsAbsent : Engine T → Type 0
  IsAbsent e = lookup lba e.dirty ≡ none

  flush_batch-IsAbsent : (e : Engine T) → IsAbsent e → IsAbsent (flush_batch T e).1
  unfolding flush_batch
  flush_batch-IsAbsent e a = ground (
    arith,
    remove_all-take max_blocks_per_rpc e.dirty,
    lookup-drop-none lba max_blocks_per_rpc e.dirty a,
  )

  flush_batches-IsAbsent :
      (fuel : ℕ) (e : Engine T) → IsAbsent e → IsAbsent (flush_batches T fuel e).1
  unfolding flush_batches
  flush_batches-IsAbsent zero e a = a
  flush_batches-IsAbsent (suc fuel) e a = elim (Bool-cases (is_empty e.dirty)) [
    | inl p ↦ rw (p, flush_batches) a
    | inr p ↦ elim (Result-cases (flush_batch T e).0) [
      | inl (u, q) ↦
          rw (p, q, flush_batches)
            (flush_batches-IsAbsent fuel (flush_batch T e).1 (flush_batch-IsAbsent e a))
      | inr (x, q) ↦ rw (p, q, flush_batches) (flush_batch-IsAbsent e a)
    ]
  ]

  flush_once-IsAbsent : (e : Engine T) → IsAbsent e → IsAbsent (flush_once T e).1
  unfolding flush_once
  flush_once-IsAbsent e a = elim (Bool-cases (is_empty e.dirty)) [
    | inl p ↦ rw (p, flush_once) a
    | inr p ↦ rw (p, flush_once) (flush_batches-IsAbsent (length e.dirty) e a)
  ]

  fwd-IsAbsent :
      (C : Clock T) (deadline : ℕ) (e : Engine T)
      → IsAbsent e
      → IsAbsent (flush_with_deadline T C deadline e).1
  fwd-IsAbsent = flush_with_deadline_inv IsAbsent flush_once-IsAbsent

  module _ (C : Clock T) (e : Engine T) (a : IsAbsent e) where
    pub flush-IsAbsent : IsAbsent (flush T C e).1
    unfolding flush
    flush-IsAbsent = fwd-IsAbsent C e.config.flush_retry_deadline e a

    pub disconnect-IsAbsent : IsAbsent (disconnect T C e).1
    unfolding disconnect
    disconnect-IsAbsent =
        let flushed = fwd-IsAbsent C e.config.flush_retry_deadline e a in ground (arith, flushed)

    pub write_blocks-IsAbsent :
        (start : ℕ) (payload : Bytes)
        → IsSized e.geometry
        → Fits e.geometry start payload
        → (leb start lba && ltb lba (start + length payload / e.geometry.block_size_bytes)) ≡ false
        → IsAbsent (write_blocks T C start payload e).1
    write_blocks-IsAbsent start payload s f outside =
        let size = e.geometry.block_size_bytes in
        let count = length payload / size in
        let chunks = chunks_exact count size payload in
        let here : IsAbsent (buffered C start payload e) =
          lookup-put_all_outside lba start chunks e.dirty
            (λ h. ground (arith, length-chunks_exact count size payload))
          ∙ a in
        rw (write_blocks-eq C start payload e s f) (
          ground (
            arith,
            here,
            fwd-IsAbsent C e.config.flush_retry_deadline (buffered C start payload e) here,
          ))

module _ {T : BackendTransport} {block_size : ℕ} (S : BlockStore T block_size) where
  pub bare : (e : Engine T) (lba : ℕ) → IsAbsent lba e → view S e lba ≡ S.contents e.transport lba
  bare e lba a = rw (a, overlay) refl

  -- Where neither engine has a block in its cache and a client sees the same, the volumes agree.
  pub contents-IsAbsent :
      (e e' : Engine T) (lba : ℕ)
      → IsAbsent lba e
      → IsAbsent lba e'
      → view S e' lba ≡ view S e lba
      → S.contents e'.transport lba ≡ S.contents e.transport lba
  contents-IsAbsent e e' lba a b h = sym (bare e' lba b) ∙ h ∙ bare e lba a
