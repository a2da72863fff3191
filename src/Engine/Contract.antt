-- ===== src/Engine/Contract.antt =====
-- The requests that the engine sends respect the limits of the volume service: a read or a batch
-- is never empty and never longer than a request may be, a read stays in the volume, and a batch
-- is in ascending order of addresses. Stated as a rule: what such calls preserve, the engine does.
use native.Mathlib.Decide.{dec_lt}
use temporal_nbd.Prelude.{
  ℕ, zero, suc, ◌+◌, ◌-◌, ◌*◌, ◌≤◌, ◌<◌, ◌≡◌, refl, inl, inr, true, false, List, [], ◌∷◌, arith,
  length, is_empty, take, min, Result-cases, Bool-cases, Option-cases, checked_add, ◌==◌,
}
use temporal_nbd.BTree.{insert, IsSorted, Above}
use temporal_nbd.BTree.Laws.{insert-IsSorted, remove_all-take, drop-IsSorted}
use temporal_nbd.Transport.{BackendTransport, BlockWrite, Bytes}
use temporal_nbd.Transport.Blocks.{copy_into}
use temporal_nbd.Engine.State.{Engine, DirtyCache, max_blocks_per_rpc}
use temporal_nbd.Engine.Flushing.{
  to_writes, Clock, flush_batch, flush_batches, flush_once, flush_with_deadline,
}
use temporal_nbd.Engine.Reading.{check_read, read_chunks, read_blocks}
use temporal_nbd.Engine.Operations.{
  flush, insert_chunks, chunks_exact, check_write, write_blocks, disconnect,
}
use temporal_nbd.Engine.ReadLaws.{InRange-of_ok}
use temporal_nbd.Engine.Retry.{flush_with_deadline_inv}
use temporal_nbd.Engine.View.{length-to_writes-take}

abbrev pub IsAbove : ℕ → List BlockWrite → Type 0
IsAbove lba [] = Unit
IsAbove lba (w ∷ ws) = (lba < w.lba) × IsAbove lba ws

abbrev pub IsAscending : List BlockWrite → Type 0
IsAscending [] = Unit
IsAscending (w ∷ ws) = IsAbove w.lba ws × IsAscending ws

-- A batch that may be sent.
pub record IsBatch (ws : List BlockWrite) : Type 0 where
  pub not_empty : is_empty ws ≡ false
  pub limited : length ws ≤ max_blocks_per_rpc
  pub ascending : IsAscending ws

-- A predicate on the transport's state that the calls within the limits preserve, for a volume of
-- `total` blocks.
pub record Respects (T : BackendTransport) (total : ℕ) (P : T.State → Type 0) : Type 0 where
  pub reads :
      (lba count : ℕ) (s : T.State)
      → 0 < count
      → count ≤ max_blocks_per_rpc
      → lba + count ≤ total
      → P s
      → P (T.read_blocks lba count s).1
  pub writes : (ws : List BlockWrite) (s : T.State) → IsBatch ws → P s → P (T.write_batch ws s).1
  pub leaves : (s : T.State) → P s → P (T.disconnect s).1

IsAbove-to_writes : (lba n : ℕ) (d : DirtyCache) → Above lba d → IsAbove lba (to_writes (take n d))
IsAbove-to_writes lba zero d h = tt
IsAbove-to_writes lba (suc n) [] h = tt
IsAbove-to_writes lba (suc n) (e ∷ d) h = (h.0, IsAbove-to_writes lba n d h.1)

IsAscending-to_writes : (n : ℕ) (d : DirtyCache) → IsSorted d → IsAscending (to_writes (take n d))
IsAscending-to_writes zero d s = tt
IsAscending-to_writes (suc n) [] s = tt
IsAscending-to_writes (suc n) (e ∷ d) s =
    (IsAbove-to_writes e.0 n d s.0, IsAscending-to_writes n d s.1)

to_writes-not_empty :
    (n : ℕ) (d : DirtyCache) → is_empty d ≡ false → is_empty (to_writes (take (suc n) d)) ≡ false
to_writes-not_empty n [] h = h
to_writes-not_empty n (e ∷ d) h = refl

next-IsBatch :
    (d : DirtyCache)
    → IsSorted d
    → is_empty d ≡ false
    → IsBatch (to_writes (take max_blocks_per_rpc d))
next-IsBatch d s h = record {
  not_empty = to_writes-not_empty 511 d h;
  limited = length-to_writes-take max_blocks_per_rpc d;
  ascending = IsAscending-to_writes max_blocks_per_rpc d s;
}

module _ {T : BackendTransport} {total : ℕ} {P : T.State → Type 0} (R : Respects T total P) where
  -- What holds of an engine all along.
  abbrev pub Along : Engine T → Type 0
  Along e = P e.transport × IsSorted e.dirty

  flush_batch-Along :
      (e : Engine T) → is_empty e.dirty ≡ false → Along e → Along (flush_batch T e).1
  unfolding flush_batch
  flush_batch-Along e h a =
      let sent = R.writes _ e.transport (next-IsBatch e.dirty a.1 h) a.0 in
      elim (Result-cases
        (T.write_batch (to_writes (take max_blocks_per_rpc e.dirty)) e.transport).0) [
          | inl (u, p) ↦
              rw (p, flush_batch, remove_all-take)
                (sent, drop-IsSorted max_blocks_per_rpc e.dirty a.1)
          | inr (x, p) ↦ rw (p, flush_batch) (sent, a.1)
        ]

  flush_batches-Along : (fuel : ℕ) (e : Engine T) → Along e → Along (flush_batches T fuel e).1
  unfolding flush_batches
  flush_batches-Along zero e a = a
  flush_batches-Along (suc fuel) e a = elim (Bool-cases (is_empty e.dirty)) [
    | inl p ↦ rw (p, flush_batches) a
    | inr p ↦ elim (Result-cases (flush_batch T e).0) [
      | inl (u, q) ↦
          rw (p, q, flush_batches)
            (flush_batches-Along fuel (flush_batch T e).1 (flush_batch-Along e p a))
      | inr (x, q) ↦ rw (p, q, flush_batches) (flush_batch-Along e p a)
    ]
  ]

  flush_once-Along : (e : Engine T) → Along e → Along (flush_once T e).1
  unfolding flush_once
  flush_once-Along e a = elim (Bool-cases (is_empty e.dirty)) [
    | inl p ↦ rw (p, flush_once) a
    | inr p ↦ rw (p, flush_once) (flush_batches-Along (length e.dirty) e a)
  ]

  fwd-Along :
      (C : Clock T) (deadline : ℕ) (e : Engine T)
      → Along e
      → Along (flush_with_deadline T C deadline e).1
  fwd-Along = flush_with_deadline_inv Along flush_once-Along

  read_chunks-Along :
      (fuel size remaining lba offset : ℕ) (output : Bytes) (t : T.State)
      → lba + remaining ≤ total
      → P t
      → P (read_chunks T fuel size remaining lba offset output t).1
  unfolding read_chunks
  read_chunks-Along zero size remaining lba offset output t b h = h
  read_chunks-Along (suc fuel) size remaining lba offset output t b h = elim (dec_lt 0 remaining) [
    | no n ↦ let none_left : (remaining == 0) ≡ true = ground arith in rw (none_left, read_chunks) h
    | yes p ↦
        let count : ℕ = min remaining max_blocks_per_rpc in
        let sent = R.reads lba count t (omega arith) (omega arith) (omega arith) h in
        elim (Result-cases (T.read_blocks lba count t).0) [
          | inr (y, q) ↦ ground (arith, sent)
          | inl (chunk, q) ↦ ground (
            arith,
            sent,
            read_chunks-Along fuel size (remaining - count) (lba + count) (offset + count * size)
                (copy_into output offset chunk) (T.read_blocks lba count t).1 (omega arith) sent,
          )
        ]
  ]

insert_chunks-IsSorted :
    (start index : ℕ) (cs : List Bytes) (d : DirtyCache)
    → IsSorted d
    → IsSorted (insert_chunks start index cs d).1
unfolding insert_chunks
insert_chunks-IsSorted start index [] d s = s
insert_chunks-IsSorted start index (c ∷ cs) d s = elim (Option-cases (checked_add start index)) [
  | inl none_left ↦ rw (none_left, insert_chunks) s
  | inr (lba, h) ↦
      rw (h, insert_chunks)
        (insert_chunks-IsSorted start (suc index) cs (insert lba c d) (insert-IsSorted lba c d s))
]

module _ {T : BackendTransport} (C : Clock T) {P : T.State → Type 0} (e : Engine T)
    (R : Respects T e.geometry.total_blocks P) (s : IsSorted e.dirty) (p : P e.transport) where
  -- A read preserves what the calls within the limits preserve.
  pub read_blocks_respects : (start count : ℕ) → P (read_blocks T start count e).1.transport
  unfolding read_blocks
  read_blocks_respects start count = elim (Result-cases (check_read e.geometry start count)) [
    | inr (x, h) ↦ rw (h, read_blocks) p
    | inl (n, h) ↦
        rw (h, read_blocks)
          (read_chunks-Along R count _ count start 0 _ e.transport
            (InRange-of_ok e.geometry start count h).inside p)
  ]

  fwd_respects :
      (deadline : ℕ) (d : DirtyCache)
      → IsSorted d
      → P (flush_with_deadline T C deadline (record e { dirty = d })).1.transport
  fwd_respects deadline d k = (fwd-Along R C deadline (record e { dirty = d }) (p, k)).0

  pub write_blocks_respects :
      (start : ℕ) (payload : Bytes) → P (write_blocks T C start payload e).1.transport
  unfolding write_blocks
  write_blocks_respects start payload = elim (Result-cases (check_write e.geometry start payload)) [
    | inr (x, h) ↦ rw (h, write_blocks) p
    | inl (n, h) ↦
        let chunks = chunks_exact n e.geometry.block_size_bytes payload in
        ground (
          arith,
          fwd_respects e.config.flush_retry_deadline (insert_chunks start 0 chunks e.dirty).1
              (insert_chunks-IsSorted start 0 chunks e.dirty s),
        )
  ]

  pub flush_respects : P (flush T C e).1.transport
  unfolding flush
  flush_respects = fwd_respects e.config.flush_retry_deadline e.dirty s

  pub disconnect_respects : P (disconnect T C e).1.transport
  unfolding disconnect
  disconnect_respects =
      let flushed = fwd_respects e.config.flush_retry_deadline e.dirty s in
      ground (arith, R.leaves _ flushed)

  -- Whatever the calls within the limits preserve is preserved by every operation of the engine:
  -- every read that it sends asks for 1 to 512 blocks of the volume, and every batch has 1 to 512
  -- writes in strictly ascending order of addresses.
  pub engine_respects :
      (start count : ℕ) (payload : Bytes)
      → P (read_blocks T start count e).1.transport
        × P (write_blocks T C start payload e).1.transport
        × P (flush T C e).1.transport
        × P (disconnect T C e).1.transport
  engine_respects start count payload = (
    read_blocks_respects start count,
    write_blocks_respects start payload,
    flush_respects,
    disconnect_respects,
  )
