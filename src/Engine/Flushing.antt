-- ===== src/Engine/Flushing.antt =====
-- The flush of src/engine.rs: batches within the request limit, and the retries until a deadline.
use mathlib.Core.Logic.{dite}
use mathlib.Core.WellFounded.{Acc}
use native.Mathlib.Decide.{dec_lt}
use temporal_nbd.Prelude.{
  ℕ, zero, suc, ◌-◌, ◌<◌, Bool, true, false, List, map, if◌then◌else◌, Result, ok, err, length,
  is_empty, take, arith,
}
use temporal_nbd.BTree.{keys, remove_all}
use temporal_nbd.Errors.{EngineError}
use temporal_nbd.Transport.{BlockWrite, BackendTransport}
use temporal_nbd.Engine.State.{max_blocks_per_rpc, DirtyCache, Engine, map_transport}

abbrev pub to_writes : DirtyCache → List BlockWrite
to_writes = map (λ e. record { lba = e.0; block_data = e.1 })

-- The clock of a flush that began in the transport state `s`: `elapsed s i` is the time since
-- then when the `i`-th failed attempt is followed by the test of the deadline. An attempt and a
-- sleep lie between two tests, so time has passed.
pub record Clock (T : BackendTransport) : Type 0 where
  pub elapsed : T.State → ℕ → ℕ
  pub progress : (s : T.State) (i : ℕ) → elapsed s i < elapsed s (suc i)

module _ (T : BackendTransport) where
  -- One round of the loop in `flush_once`: a batch of dirty blocks in ascending order, which
  -- leave the cache once the transport has taken them.
  unfoldable pub flush_batch : Engine T → Result (Unit {0}) (EngineError × Bool) × Engine T
  flush_batch e =
      let batch = take max_blocks_per_rpc e.dirty in
      let (answer, t) = T.write_batch (to_writes batch) e.transport in
      elim answer [
        | err x ↦ (err (map_transport x), record e { transport = t })
        | ok _ ↦ (ok tt, record e { transport = t; dirty = remove_all (keys batch) e.dirty })
      ]

  -- The loop `while !self.dirty.is_empty()`. Each round takes a block at least from the cache.
  unfoldable pub flush_batches : ℕ → Engine T → Result (Unit {0}) (EngineError × Bool) × Engine T
  unfolding flush_batch
  flush_batches zero e = (ok tt, e)
  flush_batches (suc fuel) e =
      let (answer, e') = flush_batch e in
      let rest : Result (Unit {0}) (EngineError × Bool) × Engine T = elim answer [
        | err x ↦ (err x, e')
        | ok _ ↦ flush_batches fuel e'
      ] in
      if is_empty e.dirty then (ok tt, e) else rest

  unfoldable pub flush_once : Engine T → Result (Unit {0}) (EngineError × Bool) × Engine T
  unfolding flush_batches
  flush_once e = if is_empty e.dirty then (ok tt, e) else flush_batches (length e.dirty) e

module _ (T : BackendTransport) (C : Clock T) (started : T.State) (deadline : ℕ) where
  -- A later test of the deadline that finds less time left.
  abbrev pub Closer : ℕ → ℕ → Type 0
  Closer j i = deadline - C.elapsed started j < deadline - C.elapsed started i

  pub closer : (i : ℕ) → C.elapsed started i < deadline → Closer (suc i) i
  closer i h = omega (arith, C.progress started i)

  Acc-Closer_below : (k i : ℕ) → deadline - C.elapsed started i < k → Acc Closer i
  Acc-Closer_below zero i h = elim h [ ]
  Acc-Closer_below (suc k) i h = Acc.intro i (λ j hj. Acc-Closer_below k j (omega arith))

  unfoldable pub Acc-Closer : (i : ℕ) → Acc Closer i
  unfolding Acc-Closer_below
  Acc-Closer i = Acc-Closer_below (suc deadline) i (omega arith)

  -- The loop of `flush_with_deadline`, from its `i`-th attempt on. It ends as the time left falls.
  unfoldable pub flush_attempts :
      (i : ℕ) → Acc Closer i → Engine T → Result (Unit {0}) EngineError × Engine T
  flush_attempts i (Acc.intro _ later) e =
      let (answer, e') = flush_once T e in
      elim answer [
        | ok _ ↦ (ok tt, e')
        | err (x, may_retry) ↦ elim may_retry [
          | false ↦ (err x, e')
          | true ↦
              dite (dec_lt (C.elapsed started i) deadline)
                (λ h. flush_attempts (suc i) (later (suc i) (closer i h)) e') (λ _. (err x, e'))
        ]
      ]

module _ (T : BackendTransport) (C : Clock T) where
  unfoldable pub flush_with_deadline : ℕ → Engine T → Result (Unit {0}) EngineError × Engine T
  unfolding flush_attempts Acc-Closer dec_lt
  flush_with_deadline deadline e =
      if is_empty e.dirty
      then (ok tt, e)
      else flush_attempts T C e.transport deadline 0 (Acc-Closer T C e.transport deadline 0) e
