-- ===== src/Session/Retry.antt =====
-- The loop `for attempt in 1..=attempts` that the functions of src/session.rs share, with the
-- body of a round as a parameter.
use temporal_nbd.Prelude.{ℕ, zero, suc, true, false, ltb, Result, err}
use temporal_nbd.Errors.{TransportError}

-- What a round comes to: a return, or an error that the next round repeats the request after, if
-- there is one, and that the function returns otherwise.
pub data Round {ℓ} (A : Type ℓ) : Type ℓ where
  done : Result A TransportError → Round A
  again : TransportError → Round A

module _ {ℓ κ} {S : Type ℓ} {A : Type κ} (round : S → Round A × S) (pause : ℕ → S → S)
    (attempts : ℕ) (exhausted : TransportError) where
  -- The rounds from `attempt` on, of which `left` are left. `pause` is the sleep between rounds.
  unfoldable pub retry_from : (left attempt : ℕ) → S → Result A TransportError × S
  retry_from zero attempt s = (err exhausted, s)
  retry_from (suc left) attempt s =
      let (outcome, s') = round s in
      elim outcome [
        | done answer ↦ (answer, s')
        | again x ↦ elim (ltb attempt attempts) [
          | true ↦ retry_from left (suc attempt) (pause attempt s')
          | false ↦ (err x, s')
        ]
      ]

  unfoldable pub retry : S → Result A TransportError × S
  unfolding retry_from
  retry = retry_from attempts 1
