-- ===== src/Engine/Retry.antt =====
-- The retries of a flush: whatever every attempt preserves holds when the last one starts, and the
-- flush ends as that one does.
use mathlib.Core.Logic.{dif_pos, dif_neg}
use mathlib.Core.WellFounded.{Acc}
use native.Mathlib.Bridge.{le_prop}
use native.Mathlib.Decide.{dec_lt}
use temporal_nbd.Prelude.{
  ℕ, suc, ◌≡◌, refl, subst, sym, inl, inr, false, Result, map_err, Result-cases, Bool-cases,
  is_empty,
}
use temporal_nbd.Errors.{EngineError}
use temporal_nbd.Transport.{BackendTransport}
use temporal_nbd.Engine.State.{Engine}
use temporal_nbd.Engine.Flushing.{
  Clock, flush_once, flush_attempts, Closer, closer, Acc-Closer, flush_with_deadline,
}

-- The last attempt of a flush: it starts from a state where `P` holds.
pub record LastAttempt (T : BackendTransport) (P : Engine T → Type 0)
    (out : Result (Unit {0}) EngineError × Engine T) : Type 0 where
  pub from : Engine T
  pub kept : P from
  pub same_state : out.1 ≡ (flush_once T from).1
  pub same_answer : out.0 ≡ map_err (λ x. x.0) (flush_once T from).0

module _ {T : BackendTransport} (P : Engine T → Type 0)
    (keep : (e : Engine T) → P e → P (flush_once T e).1) where
  ended :
      {out : Result (Unit {0}) EngineError × Engine T} (e : Engine T)
      → P e
      → out.1 ≡ (flush_once T e).1
      → out.0 ≡ map_err (λ x. x.0) (flush_once T e).0
      → LastAttempt T P out
  ended e v p q = record { from = e; kept = v; same_state = p; same_answer = q }

  flush_attempts-LastAttempt :
      (C : Clock T) (started : T.State) (deadline i : ℕ) (w : Acc (Closer T C started deadline) i)
      (e : Engine T)
      → P e
      → LastAttempt T P (flush_attempts T C started deadline i w e)
  unfolding flush_attempts
  flush_attempts-LastAttempt C started deadline i (Acc.intro _ later) e v =
      elim (Result-cases (flush_once T e).0) [
        | inl (u, q) ↦ rw (q, flush_attempts) (ended e v refl (rw q))
        | inr (x, q) ↦ elim (Bool-cases x.1) [
          | inl p ↦ elim (dec_lt (C.elapsed started i) deadline) [
            | yes h ↦
                rw (q, p, flush_attempts)
                  (rw (dif_pos _ le_prop h) (
                    flush_attempts-LastAttempt C started deadline (suc i)
                      (later (suc i) (closer T C started deadline i h)) (flush_once T e).1
                      (keep e v)))
            | no h ↦ rw (q, p, flush_attempts) (rw (dif_neg _ h) (ended e v refl (rw q)))
          ]
          | inr p ↦ rw (q, p, flush_attempts) (ended e v refl (rw q))
        ]
      ]

  pub flush_with_deadline-LastAttempt :
      (C : Clock T) (deadline : ℕ) (e : Engine T)
      → P e
      → is_empty e.dirty ≡ false
      → LastAttempt T P (flush_with_deadline T C deadline e)
  unfolding flush_with_deadline
  flush_with_deadline-LastAttempt C deadline e v p =
      rw (p, flush_with_deadline)
        (flush_attempts-LastAttempt C e.transport deadline 0 (Acc-Closer T C e.transport deadline 0)
          e v)

  -- What every attempt preserves, the flush preserves.
  pub flush_with_deadline_inv :
      (C : Clock T) (deadline : ℕ) (e : Engine T) → P e → P (flush_with_deadline T C deadline e).1
  unfolding flush_with_deadline
  flush_with_deadline_inv C deadline e v = elim (Bool-cases (is_empty e.dirty)) [
    | inl p ↦ rw (p, flush_with_deadline) v
    | inr p ↦
        let l = flush_with_deadline-LastAttempt C deadline e v p in
        subst P (sym l.same_state) (keep l.from l.kept)
  ]
