-- ===== src/Engine/FlushLaws.antt =====
-- The flush keeps what a client sees whatever the transport does, and leaves the cache empty when
-- it succeeds.
use temporal_nbd.Prelude.{
  ℕ, zero, suc, ◌≡◌, refl, ◌∙◌, subst, inl, inr, List, length, is_empty, take, drop, All-drop, ok,
  Result-cases, Bool-cases,
}
use temporal_nbd.BTree.Laws.{remove_all-take, drop-IsSorted}
use temporal_nbd.Transport.{BackendTransport, BlockWrite, store_all}
use temporal_nbd.Transport.Laws.{BlockStore, AreBlocks}
use temporal_nbd.Engine.State.{Engine, max_blocks_per_rpc}
use temporal_nbd.Engine.Flushing.{
  to_writes, Clock, flush_batch, flush_batches, flush_once, flush_with_deadline,
}
use temporal_nbd.Engine.Retry.{flush_with_deadline_inv}
use temporal_nbd.Engine.View.{
  overlay_ext, IsValid, Keeps, Keeps-refl, Keeps-trans, overlay-drop, Misses-of_none,
  AreBlocks-to_writes,
}

module _ {T : BackendTransport} {block_size : ℕ} (S : BlockStore T block_size) where
  batch_blocks :
      (e : Engine T)
      → IsValid S e
      → AreBlocks block_size (to_writes (take max_blocks_per_rpc e.dirty))
  batch_blocks e v =
      subst (λ n. AreBlocks n (to_writes (take max_blocks_per_rpc e.dirty))) v.block_eq
        (AreBlocks-to_writes e.geometry max_blocks_per_rpc e.dirty v.cached)

  module _ (e : Engine T) (v : IsValid S e) where
    abbrev batch : List BlockWrite
    batch = to_writes (take max_blocks_per_rpc e.dirty)

    abbrev after : T.State
    after = (T.write_batch batch e.transport).1

    -- A refused batch: the blocks stay in the cache, over whatever the transport has stored.
    refused-Keeps : Keeps S e (record e { transport = after })
    refused-Keeps = record {
      valid = record {
        block_eq = v.block_eq;
        sized = v.sized;
        sorted = v.sorted;
        cached = v.cached;
        watermark_pos = v.watermark_pos;
        sound = S.write-IsSound _ e.transport v.sound (batch_blocks e v);
      };
      same_geometry = refl;
      same_config = refl;
      same_view = λ lba.
          overlay_ext e.dirty (S.contents after) (S.contents e.transport) lba λ absent.
            S.write_misses batch lba e.transport v.sound (batch_blocks e v)
              (Misses-of_none max_blocks_per_rpc lba e.dirty absent);
    }

    taken-Keeps :
        (T.write_batch batch e.transport).0 ≡ ok tt
        → Keeps S e (record e { transport = after; dirty = drop max_blocks_per_rpc e.dirty })
    taken-Keeps h = record {
      valid = record {
        block_eq = v.block_eq;
        sized = v.sized;
        sorted = drop-IsSorted max_blocks_per_rpc e.dirty v.sorted;
        cached = All-drop _ max_blocks_per_rpc e.dirty v.cached;
        watermark_pos = v.watermark_pos;
        sound = S.write-IsSound _ e.transport v.sound (batch_blocks e v);
      };
      same_geometry = refl;
      same_config = refl;
      same_view = λ lba.
          overlay_ext (drop max_blocks_per_rpc e.dirty) (S.contents after)
            (store_all batch (S.contents e.transport)) lba
            (λ _. S.write_stores batch lba e.transport v.sound (batch_blocks e v) h)
          ∙ overlay-drop max_blocks_per_rpc e.dirty (S.contents e.transport) lba v.sorted;
    }

  flush_batch-Keeps : (e : Engine T) → IsValid S e → Keeps S e (flush_batch T e).1
  unfolding flush_batch
  flush_batch-Keeps e v = elim (Result-cases (T.write_batch (batch e v) e.transport).0) [
    | inl (u, p) ↦ rw (p, flush_batch, remove_all-take) (taken-Keeps e v p)
    | inr (x, p) ↦ rw (p, flush_batch) (refused-Keeps e v)
  ]

  flush_batches-Keeps :
      (fuel : ℕ) (e : Engine T) → IsValid S e → Keeps S e (flush_batches T fuel e).1
  unfolding flush_batches
  flush_batches-Keeps zero e v = Keeps-refl S e v
  flush_batches-Keeps (suc fuel) e v = elim (Bool-cases (is_empty e.dirty)) [
    | inl p ↦ rw (p, flush_batches) (Keeps-refl S e v)
    | inr p ↦ elim (Result-cases (flush_batch T e).0) [
      | inl (u, q) ↦
          let k = flush_batch-Keeps e v in
          rw (p, q, flush_batches)
            (Keeps-trans S k (flush_batches-Keeps fuel (flush_batch T e).1 k.valid))
      | inr (x, q) ↦ rw (p, q, flush_batches) (flush_batch-Keeps e v)
    ]
  ]

  pub flush_once-Keeps : (e : Engine T) → IsValid S e → Keeps S e (flush_once T e).1
  unfolding flush_once
  flush_once-Keeps e v = elim (Bool-cases (is_empty e.dirty)) [
    | inl p ↦ rw (p, flush_once) (Keeps-refl S e v)
    | inr p ↦ rw (p, flush_once) (flush_batches-Keeps (length e.dirty) e v)
  ]

  pub flush_with_deadline-Keeps :
      (C : Clock T) (deadline : ℕ) (e : Engine T)
      → IsValid S e
      → Keeps S e (flush_with_deadline T C deadline e).1
  flush_with_deadline-Keeps C deadline e v =
      flush_with_deadline_inv (Keeps S e) (λ e' k. Keeps-trans S k (flush_once-Keeps e' k.valid)) C
        deadline e (Keeps-refl S e v)
