-- ===== src/Engine/Recovery.antt =====
-- A flush outlasts failures: where the transport fails a limited number of batches, each of which
-- may be repeated, and the deadline leaves the time for as many attempts, the flush succeeds.
use mathlib.Core.Logic.{dif_pos}
use mathlib.Core.WellFounded.{Acc}
use native.Mathlib.Bridge.{le_prop}
use temporal_nbd.Prelude.{
  ℕ, zero, suc, ◌+◌, ◌<◌, ◌≡◌, refl, ◌⊎◌, inl, inr, true, [], String, Bool, Result, ok, err, List,
  arith, length, is_empty, take, Bool-cases,
}
use temporal_nbd.Errors.{EngineError, retryable}
use temporal_nbd.Transport.{BackendTransport, BlockWrite}
use temporal_nbd.Transport.Laws.{BlockStore}
use temporal_nbd.Engine.State.{Engine, map_transport, max_blocks_per_rpc}
use temporal_nbd.Engine.Flushing.{
  to_writes, Clock, flush_batch, flush_batches, flush_once, flush_attempts, Closer, closer,
  Acc-Closer, flush_with_deadline,
}
use temporal_nbd.Engine.Operations.{flush}
use temporal_nbd.Engine.View.{view, IsValid}
use temporal_nbd.Engine.FlushResults.{flush_durable}

-- A transport that fails at most `n` more batches, each with an error after which the batch may be
-- repeated.
pub record Failing (T : BackendTransport) : Type 1 where
  pub AtMost : ℕ → T.State → Type 0
  pub writes :
      (n : ℕ) (ws : List BlockWrite) (t : T.State)
      → AtMost n t
      → (((T.write_batch ws t).0 ≡ ok tt) × AtMost n (T.write_batch ws t).1)
        ⊎ ((m : ℕ) × (message : String) × (n ≡ suc m)
            × ((T.write_batch ws t).0 ≡ err (retryable message))
            × AtMost m (T.write_batch ws t).1)

module _ {T : BackendTransport} (F : Failing T) where
  -- An attempt ends well, or it has met one of the failures.
  abbrev Attempted : ℕ → Result (Unit {0}) (EngineError × Bool) × Engine T → Type 0
  Attempted n out =
      ((out.0 ≡ ok tt) × F.AtMost n out.1.transport)
      ⊎ ((m : ℕ) × (x : EngineError) × (n ≡ suc m)
          × (out.0 ≡ err (x, true))
          × F.AtMost m out.1.transport)

  flush_batch-Attempted :
      (n : ℕ) (e : Engine T) → F.AtMost n e.transport → Attempted n (flush_batch T e)
  unfolding flush_batch
  flush_batch-Attempted n e a =
      let batch = to_writes (take max_blocks_per_rpc e.dirty) in
      elim (F.writes n batch e.transport a) [
        | inl (q, b) ↦ rw (q, flush_batch) (inl (refl, b))
        | inr (m, message, s, q, b) ↦
            rw (q, flush_batch) (inr (m, (map_transport (retryable message)).0, s, refl, b))
      ]

  flush_batches-Attempted :
      (fuel n : ℕ) (e : Engine T) → F.AtMost n e.transport → Attempted n (flush_batches T fuel e)
  unfolding flush_batches
  flush_batches-Attempted zero n e a = inl (refl, a)
  flush_batches-Attempted (suc fuel) n e a = elim (Bool-cases (is_empty e.dirty)) [
    | inl p ↦ rw (p, flush_batches) (inl (refl, a))
    | inr p ↦ elim (flush_batch-Attempted n e a) [
      | inl (q, b) ↦ rw (p, q, flush_batches) (flush_batches-Attempted fuel n (flush_batch T e).1 b)
      | inr (m, x, s, q, b) ↦ rw (p, q, flush_batches) (inr (m, x, s, refl, b))
    ]
  ]

  flush_once-Attempted :
      (n : ℕ) (e : Engine T) → F.AtMost n e.transport → Attempted n (flush_once T e)
  unfolding flush_once
  flush_once-Attempted n e a = elim (Bool-cases (is_empty e.dirty)) [
    | inl p ↦ rw (p, flush_once) (inl (refl, a))
    | inr p ↦ rw (p, flush_once) (flush_batches-Attempted (length e.dirty) n e a)
  ]

  module _ (C : Clock T) (started : T.State) (deadline : ℕ) where
    flush_attempts-succeed :
        (n i : ℕ) (w : Acc (Closer T C started deadline) i) (e : Engine T)
        → F.AtMost n e.transport
        → ((j : ℕ) → j < i + n → C.elapsed started j < deadline)
        → (flush_attempts T C started deadline i w e).0 ≡ ok tt
    unfolding flush_attempts
    flush_attempts-succeed n i (Acc.intro _ later) e a h = elim (flush_once-Attempted n e a) [
      | inl (q, b) ↦ rw (q, flush_attempts) refl
      | inr (m, x, s, q, b) ↦
          let now : C.elapsed started i < deadline = h i (omega (arith, s)) in
          rw (q, flush_attempts)
            (rw (dif_pos _ le_prop now) (
              flush_attempts-succeed m (suc i) (later (suc i) (closer T C started deadline i now))
                (flush_once T e).1 b (λ j l. h j (omega (arith, s, l)))))
    ]

  flush-ok :
      (C : Clock T) (n : ℕ) (e : Engine T)
      → F.AtMost n e.transport
      → ((j : ℕ) → j < n → C.elapsed e.transport j < e.config.flush_retry_deadline)
      → (flush T C e).0 ≡ ok tt
  unfolding flush flush_with_deadline
  flush-ok C n e a h = elim (Bool-cases (is_empty e.dirty)) [
    | inl p ↦ rw (p, flush_with_deadline) refl
    | inr p ↦
        let deadline = e.config.flush_retry_deadline in
        rw (p, flush_with_deadline)
          (flush_attempts-succeed C e.transport deadline n 0 (Acc-Closer T C e.transport deadline 0)
            e a (λ j l. h j (omega (arith, l))))
  ]

  -- A flush outlasts failures. In a state that satisfies the invariant, where the transport fails at
  -- most `n` more batches, each time with an error after which the batch may be repeated, and the
  -- deadline has not passed at the first `n` tests of it, a flush succeeds: the cache is empty, and
  -- the volume behind the transport holds every block that a client saw.
  pub flush_recovers :
      {block_size : ℕ} (S : BlockStore T block_size) (C : Clock T) (n : ℕ) (e : Engine T)
      → IsValid S e
      → F.AtMost n e.transport
      → ((j : ℕ) → j < n → C.elapsed e.transport j < e.config.flush_retry_deadline)
      → let (answer, e') = flush T C e in
        (answer ≡ ok tt)
        × (e'.dirty ≡ [])
        × ((lba : ℕ) → S.contents e'.transport lba ≡ view S e lba)
  flush_recovers S C n e v a h =
      let answer = flush-ok C n e a h in
      let durable = flush_durable S C e v answer in (answer, durable.1, durable.2)
