-- ===== src/Engine/Sizes.antt =====
-- How many blocks a write to an empty cache leaves, and the batches of a cache that fills two.
use temporal_nbd.Prelude.{
  ℕ, zero, suc, true, err, false, ◌+◌, ◌≤◌, ◌<◌, ◌≡◌, refl, sym, ap, ◌∙◌, List, [], ◌∷◌, ◌++◌, ok,
  length, take, drop, arith, All, is_empty, length-drop, take_all, drop_all,
}
use mathlib.Core.List.{append_assoc, append-nil}
use mathlib.Core.Logic.{dif_pos}
use mathlib.Core.WellFounded.{Acc}
use native.Mathlib.Bridge.{le_prop}
use temporal_nbd.BTree.{insert}
use temporal_nbd.Transport.{Bytes, BackendTransport}
use temporal_nbd.Engine.State.{Engine, DirtyCache, max_blocks_per_rpc}
use temporal_nbd.Engine.Chunks.{put_all}
use temporal_nbd.Engine.Flushing.{
  Clock, flush_attempts, flush_with_deadline, flush_once, Closer, closer, Acc-Closer,
}
use temporal_nbd.Errors.{EngineError}
use temporal_nbd.Engine.Operations.{flush}
use temporal_nbd.Engine.Batches.{batches_of, in_batches}

-- The chunks under consecutive addresses.
abbrev pub numbered : ℕ → List Bytes → DirtyCache
numbered lba [] = []
numbered lba (c ∷ cs) = (lba, c) ∷ numbered (suc lba) cs

pub length-numbered : (lba : ℕ) (cs : List Bytes) → length (numbered lba cs) ≡ length cs
length-numbered lba [] = refl
length-numbered lba (c ∷ cs) = ap suc (length-numbered (suc lba) cs)

abbrev AreBelow : ℕ → DirtyCache → Type 0
AreBelow lba = All (λ e. e.0 < lba)

insert_last :
    (lba : ℕ) (c : Bytes) (d : DirtyCache)
    → AreBelow lba d
    → (insert lba c d ≡ d ++ ((lba, c) ∷ [])) × AreBelow (suc lba) (insert lba c d)
insert_last lba c [] h = (refl, (omega arith, tt))
insert_last lba c (e ∷ d) h = ground (arith, insert_last lba c d h.1)

put_all_last :
    (lba : ℕ) (cs : List Bytes) (d : DirtyCache)
    → AreBelow lba d
    → put_all lba cs d ≡ d ++ numbered lba cs
put_all_last lba [] d h = sym (append-nil d)
put_all_last lba (c ∷ cs) d h =
    let (last, below) = insert_last lba c d h in
    put_all_last (suc lba) cs (insert lba c d) below
    ∙ ap (λ d. d ++ numbered (suc lba) cs) last
    ∙ append_assoc d ((lba, c) ∷ []) (numbered (suc lba) cs)

-- A write to an empty cache.
pub put_all-numbered : (lba : ℕ) (cs : List Bytes) → put_all lba cs [] ≡ numbered lba cs
put_all-numbered lba cs = put_all_last lba cs [] tt

pub not_empty : (d : DirtyCache) → 0 < length d → is_empty d ≡ false
not_empty [] h = absurd (omega arith)
not_empty (e ∷ d) h = refl

batches_of_none : (fuel : ℕ) → batches_of fuel [] ≡ []
batches_of_none zero = refl
batches_of_none (suc fuel) = refl

one_batch :
    (fuel : ℕ) (d : DirtyCache)
    → 0 < fuel
    → 0 < length d
    → length d ≤ max_blocks_per_rpc
    → batches_of fuel d ≡ d ∷ []
one_batch zero d f h k = absurd (omega arith)
one_batch (suc fuel) d f h k =
    rw (not_empty d h, batches_of)
      (rw (take_all d {n = max_blocks_per_rpc} k, drop_all d {n = max_blocks_per_rpc} k)
        (ap (λ b. d ∷ b) (batches_of_none fuel)))

pub in_batches_one :
    (d : DirtyCache) → 0 < length d → length d ≤ max_blocks_per_rpc → in_batches d ≡ d ∷ []
in_batches_one d h k = one_batch (length d) d h h k

two_batches :
    (fuel : ℕ) (d : DirtyCache)
    → 1 < fuel
    → max_blocks_per_rpc < length d
    → length d ≤ max_blocks_per_rpc + max_blocks_per_rpc
    → batches_of fuel d ≡ take max_blocks_per_rpc d ∷ drop max_blocks_per_rpc d ∷ []
two_batches zero d f h k = absurd (omega arith)
two_batches (suc fuel) d f h k =
    let left = length-drop max_blocks_per_rpc d in
    rw (not_empty d (omega arith), batches_of)
      (ap (λ bs. take max_blocks_per_rpc d ∷ bs)
        (one_batch fuel (drop max_blocks_per_rpc d) (omega arith) (omega (arith, left, h))
          (omega (arith, left, k))))

pub in_batches_two :
    (d : DirtyCache)
    → max_blocks_per_rpc < length d
    → length d ≤ max_blocks_per_rpc + max_blocks_per_rpc
    → in_batches d ≡ take max_blocks_per_rpc d ∷ drop max_blocks_per_rpc d ∷ []
in_batches_two d h k = two_batches (length d) d (omega arith) h k

module _ {T : BackendTransport} (C : Clock T) where
  attempt_ends :
      (started : T.State) (deadline i : ℕ) (w : Acc (Closer T C started deadline) i)
      (e e' : Engine T)
      → flush_once T e ≡ (ok tt, e')
      → flush_attempts T C started deadline i w e ≡ (ok tt, e')
  unfolding flush_attempts
  attempt_ends started deadline i (Acc.intro _ later) e e' h =
      rw (ap (λ o. o.0) h, flush_attempts) (ap (λ o. (ok tt, o.1)) h)

  attempt_repeats :
      (started : T.State) (deadline i : ℕ) (w : Acc (Closer T C started deadline) i)
      (e e' e'' : Engine T) (x : EngineError)
      → flush_once T e ≡ (err (x, true), e')
      → C.elapsed started i < deadline
      → flush_once T e' ≡ (ok tt, e'')
      → flush_attempts T C started deadline i w e ≡ (ok tt, e'')
  unfolding flush_attempts
  attempt_repeats started deadline i (Acc.intro _ later) e e' e'' x h now k =
      rw (ap (λ o. o.0) h, flush_attempts)
        (rw (dif_pos _ le_prop now) (
          attempt_ends started deadline (suc i) (later (suc i) (closer T C started deadline i now))
            (flush_once T e).1 e'' (ap (λ o. flush_once T o.1) h ∙ k)))

  module _ (e : Engine T) (dirty : is_empty e.dirty ≡ false) where
    -- A flush whose first attempt succeeds.
    pub flush_first : (e' : Engine T) → flush_once T e ≡ (ok tt, e') → flush T C e ≡ (ok tt, e')
    unfolding flush flush_with_deadline
    flush_first e' h =
        rw (dirty, flush_with_deadline)
          (attempt_ends e.transport e.config.flush_retry_deadline 0
            (Acc-Closer T C e.transport e.config.flush_retry_deadline 0) e e' h)

    -- A flush whose first attempt may be repeated, and whose second one succeeds.
    pub flush_second :
        (e' e'' : Engine T) (x : EngineError)
        → flush_once T e ≡ (err (x, true), e')
        → C.elapsed e.transport 0 < e.config.flush_retry_deadline
        → flush_once T e' ≡ (ok tt, e'')
        → flush T C e ≡ (ok tt, e'')
    unfolding flush flush_with_deadline
    flush_second e' e'' x h now k =
        rw (dirty, flush_with_deadline)
          (attempt_repeats e.transport e.config.flush_retry_deadline 0
            (Acc-Closer T C e.transport e.config.flush_retry_deadline 0) e e' e'' x h now k)
