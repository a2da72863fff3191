-- ===== src/Engine/FlushResults.antt =====
-- What the result of a flush says: success means an empty cache and a volume that holds what a
-- client saw, failure is an I/O error with blocks still in the cache.
use temporal_nbd.Prelude.{
  ℕ, zero, suc, ◌≤◌, ◌≡◌, sym, subst, subst₂, inl, inr, Bool, false, [], arith, length, is_empty,
  drop, nil_of_is_empty, nil_of_length, length-drop-lt, Result, ok, err, map_err, Result-cases,
  Bool-cases,
}
use native.Mathlib.Nat.{le_refl}
use temporal_nbd.BTree.Laws.{remove_all-take}
use temporal_nbd.Errors.{EngineError, errno, eio}
use temporal_nbd.Transport.{BackendTransport}
use temporal_nbd.Transport.Laws.{BlockStore}
use temporal_nbd.Engine.State.{Engine, DirtyCache, max_blocks_per_rpc}
use temporal_nbd.Engine.Flushing.{
  Clock, flush_batch, flush_batches, flush_once, flush_with_deadline,
}
use temporal_nbd.Engine.Operations.{flush}
use temporal_nbd.Engine.View.{overlay, view, IsValid, Keeps}
use temporal_nbd.Engine.Retry.{flush_with_deadline-LastAttempt}
use temporal_nbd.Engine.FlushLaws.{flush_with_deadline-Keeps}

-- How an attempt to flush ends: with an empty cache, or with an I/O error and a cache that is not.
abbrev pub Settles : {F : Type 0} → (F → EngineError) → Result (Unit {0}) F → DirtyCache → Type 0
Settles f (ok _) d = d ≡ []
Settles f (err x) d = (errno (f x) ≡ eio) × (is_empty d ≡ false)

Settles-map_err :
    {F : Type 0} (f : F → EngineError) (r : Result (Unit {0}) F) (d : DirtyCache)
    → Settles f r d
    → Settles (λ x. x) (map_err f r) d
Settles-map_err f (ok _) d h = h
Settles-map_err f (err x) d h = h

pub dirty_of_ok :
    (r : Result (Unit {0}) EngineError) (d : DirtyCache) → Settles (λ x. x) r d → r ≡ ok tt → d ≡ []
dirty_of_ok (ok _) d h e = h
dirty_of_ok (err x) d h e = cc

pub dirty_of_err :
    (r : Result (Unit {0}) EngineError) (d : DirtyCache) (x : EngineError)
    → Settles (λ x. x) r d
    → r ≡ err x
    → (errno x ≡ eio) × (is_empty d ≡ false)
dirty_of_err (ok _) d x h e = cc
dirty_of_err (err y) d x h e = ground arith

module _ (T : BackendTransport) where
  flush_batch_taken :
      (e : Engine T)
      → (flush_batch T e).0 ≡ ok tt
      → (flush_batch T e).1.dirty ≡ drop max_blocks_per_rpc e.dirty
  unfolding flush_batch
  flush_batch_taken e h = ground (arith, remove_all-take max_blocks_per_rpc e.dirty)

  flush_batch_refused :
      (e : Engine T) {x : EngineError × Bool}
      → (flush_batch T e).0 ≡ err x
      → (errno x.0 ≡ eio) × ((flush_batch T e).1.dirty ≡ e.dirty)
  unfolding flush_batch
  flush_batch_refused e h = ground arith

  flush_batches-Settles :
      (fuel : ℕ) (e : Engine T)
      → length e.dirty ≤ fuel
      → Settles (λ x. x.0) (flush_batches T fuel e).0 (flush_batches T fuel e).1.dirty
  unfolding flush_batches
  flush_batches-Settles zero e h = nil_of_length e.dirty h
  flush_batches-Settles (suc fuel) e h = elim (Bool-cases (is_empty e.dirty)) [
    | inl p ↦ rw (p, flush_batches) (nil_of_is_empty e.dirty p)
    | inr p ↦ elim (Result-cases (flush_batch T e).0) [
      | inl (u, q) ↦
          let left : length (flush_batch T e).1.dirty ≤ fuel =
            rw (flush_batch_taken e q) (length-drop-lt 511 fuel e.dirty p h) in
          rw (p, q, flush_batches) (flush_batches-Settles fuel (flush_batch T e).1 left)
      | inr (x, q) ↦ let r = flush_batch_refused e q in rw (p, q, flush_batches) (r.0, rw r.1 p)
    ]
  ]

  flush_once-Settles :
      (e : Engine T) → Settles (λ x. x.0) (flush_once T e).0 (flush_once T e).1.dirty
  unfolding flush_once
  flush_once-Settles e = elim (Bool-cases (is_empty e.dirty)) [
    | inl p ↦ rw (p, flush_once) (nil_of_is_empty e.dirty p)
    | inr p ↦ rw (p, flush_once) (flush_batches-Settles (length e.dirty) e (le_refl _))
  ]

module _ {T : BackendTransport} (C : Clock T) where
  pub flush_with_deadline-Settles :
      (deadline : ℕ) (e : Engine T)
      → let (answer, e') = flush_with_deadline T C deadline e in Settles (λ x. x) answer e'.dirty
  unfolding flush_with_deadline
  flush_with_deadline-Settles deadline e = elim (Bool-cases (is_empty e.dirty)) [
    | inl p ↦ rw (p, flush_with_deadline) (nil_of_is_empty e.dirty p)
    | inr p ↦
        let l = flush_with_deadline-LastAttempt (λ _. Unit {0}) (λ _ _. tt) C deadline e tt p in
        subst₂ (λ r e'. Settles (λ x. x) r e'.dirty) (sym l.same_answer) (sym l.same_state)
          (Settles-map_err _ _ _ (flush_once-Settles T l.from))
  ]

module _ {T : BackendTransport} {block_size : ℕ} (S : BlockStore T block_size) (C : Clock T) where
  pub flush-Keeps : (e : Engine T) → IsValid S e → Keeps S e (flush T C e).1
  unfolding flush
  flush-Keeps e v = flush_with_deadline-Keeps S C e.config.flush_retry_deadline e v

  -- In a state that satisfies the invariant, a flush that succeeds empties the cache, and every
  -- block that a client saw before is now in the volume behind the transport. The invariant holds
  -- after it, the geometry and the configuration are as they were, and a client sees every block as
  -- before.
  pub flush_durable :
      (e : Engine T)
      → IsValid S e
      → (flush T C e).0 ≡ ok tt
      → let e' = (flush T C e).1 in
        Keeps S e e' × (e'.dirty ≡ []) × ((lba : ℕ) → S.contents e'.transport lba ≡ view S e lba)
  unfolding flush
  flush_durable e v h =
      let k = flush_with_deadline-Keeps S C e.config.flush_retry_deadline e v in
      let e' = (flush T C e).1 in
      let clean : e'.dirty ≡ [] =
        dirty_of_ok _ _ (flush_with_deadline-Settles C e.config.flush_retry_deadline e) h in
      (
        k,
        clean,
        λ lba.
            subst (λ d. overlay d (S.contents e'.transport) lba ≡ view S e lba) clean
              (k.same_view lba),
      )

  -- In a state that satisfies the invariant, a flush that fails reports an I/O error and loses
  -- nothing: blocks are still in the cache, and a client sees every block as before, whatever part
  -- of a batch the transport has stored.
  pub flush_loses_nothing :
      (e : Engine T) (x : EngineError)
      → IsValid S e
      → (flush T C e).0 ≡ err x
      → let e' = (flush T C e).1 in
        (errno x ≡ eio)
        × (is_empty e'.dirty ≡ false)
        × IsValid S e'
        × ((lba : ℕ) → view S e' lba ≡ view S e lba)
  unfolding flush
  flush_loses_nothing e x v h =
      let k = flush_with_deadline-Keeps S C e.config.flush_retry_deadline e v in
      let settled =
        dirty_of_err _ _ x (flush_with_deadline-Settles C e.config.flush_retry_deadline e) h in
      (settled.0, settled.1, k.valid, k.same_view)
