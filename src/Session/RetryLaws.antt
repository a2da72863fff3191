-- ===== src/Session/RetryLaws.antt =====
-- The rule for the loop of Session/Retry.antt: what every round guarantees of its outcome, the
-- loop guarantees of its answer. The error after the loop is never returned.
use temporal_nbd.Prelude.{
  ℕ, zero, suc, ◌+◌, ◌≤◌, ◌<◌, ◌≡◌, refl, subst, ◌⊎◌, inl, inr, arith, ltb, Bool-cases, Result, ok,
  err, true,
}
use temporal_nbd.Errors.{TransportError}
use temporal_nbd.Session.Retry.{Round, done, again, retry_from, retry}

pub Round-cases {ℓ} :
    {A : Type ℓ} (o : Round A)
    → ((r : Result A TransportError) × (o ≡ done r)) ⊎ ((x : TransportError) × (o ≡ again x))
Round-cases (done r) = inl (r, refl)
Round-cases (again x) = inr (x, refl)

-- A round that ends with `o` in the state `s`: where it returns, `Q` holds of the answer, and where
-- it may be repeated, `P` holds for the next round and `Q` holds of the error.
abbrev pub Ends {ℓ κ} :
    {S : Type ℓ} {A : Type κ}
    → (S → Type 0)
    → (Result A TransportError → S → Type 0)
    → Round A
    → S
    → Type 0
Ends P Q (done r) s = Q r s
Ends P Q (again x) s = P s × Q (err x) s

module _ {ℓ κ} {S : Type ℓ} {A : Type κ} (round : S → Round A × S) (pause : ℕ → S → S)
    (attempts : ℕ) where
  module _ (exhausted : TransportError) (P : S → Type 0) (Q : Result A TransportError → S → Type 0)
      (ends : (s : S) → P s → Ends P Q (round s).0 (round s).1)
      (pauses : (i : ℕ) (s : S) → P s → P (pause i s)) where
    retry_from_rule :
        (left attempt : ℕ) (s : S)
        → attempt ≤ attempts
        → attempt + left ≡ suc attempts
        → P s
        → let out = retry_from round pause attempts exhausted left attempt s in Q out.0 out.1
    unfolding retry_from
    retry_from_rule zero attempt s b e p = absurd (omega arith)
    retry_from_rule (suc left) attempt s b e p =
        let end = ends s p in
        let s' = (round s).1 in
        elim (Round-cases (round s).0) [
          | inl (r, q) ↦ rw (q, retry_from) (subst (λ o. Ends P Q o s') q end)
          | inr (x, q) ↦
              let held = subst (λ o. Ends P Q o s') q end in
              elim (Bool-cases (ltb attempt attempts)) [
                | inl h ↦
                    rw (q, h, retry_from)
                      (retry_from_rule left (suc attempt) (pause attempt s') (ground arith)
                        (omega arith) (pauses attempt s' held.0))
                | inr h ↦ rw (q, h, retry_from) held.1
              ]
        ]

    pub retry_rule :
        (s : S)
        → 0 < attempts
        → P s
        → let out = retry round pause attempts exhausted s in Q out.0 out.1
    unfolding retry
    retry_rule s b p = retry_from_rule attempts 1 s (omega arith) (omega arith) p

  retry_from_exhausted :
      (x y : TransportError) (left attempt : ℕ) (s : S)
      → attempt ≤ attempts
      → attempt + left ≡ suc attempts
      → retry_from round pause attempts x left attempt s
        ≡ retry_from round pause attempts y left attempt s
  unfolding retry_from
  retry_from_exhausted x y zero attempt s b e = absurd (omega arith)
  retry_from_exhausted x y (suc left) attempt s b e = elim (Round-cases (round s).0) [
    | inl (r, q) ↦ rw (q, retry_from) refl
    | inr (z, q) ↦ elim (Bool-cases (ltb attempt attempts)) [
      | inl h ↦
          rw (q, h, retry_from)
            (retry_from_exhausted x y left (suc attempt) (pause attempt (round s).1) (ground arith)
              (omega arith))
      | inr h ↦ rw (q, h, retry_from) refl
    ]
  ]

  -- With one attempt at least, the answer is that of a round: the error after the loop, which says
  -- that it was exhausted, is never the answer.
  pub retry_exhausted :
      (x y : TransportError) (s : S)
      → 0 < attempts
      → retry round pause attempts x s ≡ retry round pause attempts y s
  unfolding retry
  retry_exhausted x y s b = retry_from_exhausted x y attempts 1 s (omega arith) (omega arith)

module _ {ℓ κ} {S : Type ℓ} {A : Type κ} (round : S → Round A × S) (pause : ℕ → S → S)
    (attempts : ℕ) (exhausted : TransportError) (spent : S → ℕ)
    (round_cost : (s : S) → spent (round s).1 ≤ suc (spent s))
    (pause_cost : (i : ℕ) (s : S) → spent (pause i s) ≤ spent s) where
  retry_from_cost :
      (left attempt : ℕ) (s : S)
      → spent (retry_from round pause attempts exhausted left attempt s).1 ≤ spent s + left
  unfolding retry_from
  retry_from_cost zero attempt s = omega arith
  retry_from_cost (suc left) attempt s =
      let s' = (round s).1 in
      elim (Round-cases (round s).0) [
        | inl (r, q) ↦ rw (q, retry_from) (omega (arith, round_cost s))
        | inr (x, q) ↦ elim (Bool-cases (ltb attempt attempts)) [
          | inl h ↦
              rw (q, h, retry_from)
                (omega (
                  arith,
                  round_cost s,
                  pause_cost attempt s',
                  retry_from_cost left (suc attempt) (pause attempt s'),
                ))
          | inr h ↦ rw (q, h, retry_from) (omega (arith, round_cost s))
        ]
      ]

  -- What a round costs at most one of, the loop costs at most one of for each attempt.
  pub retry_cost : (s : S) → spent (retry round pause attempts exhausted s).1 ≤ spent s + attempts
  unfolding retry
  retry_cost s = retry_from_cost attempts 1 s

module _ {ℓ κ} {S : Type ℓ} {A : Type κ} (P : ℕ → S → Type 0) where
  -- A round from a state that allows `n` more failures succeeds, or is one of them.
  abbrev pub Endures : ℕ → Round A × S → Type κ
  Endures n out =
      ((a : A) × (out.0 ≡ done (ok a)) × P n out.1)
      ⊎ ((m : ℕ) × (x : TransportError) × (n ≡ suc m) × (out.0 ≡ again x) × P m out.1)

  -- An answer, and no more failures allowed than before.
  abbrev pub Succeeds : ℕ → Result A TransportError × S → Type κ
  Succeeds n out = (a : A) × (m : ℕ) × (m ≤ n) × (out.0 ≡ ok a) × P m out.1

module _ {ℓ κ} {S : Type ℓ} {A : Type κ} (round : S → Round A × S) (pause : ℕ → S → S)
    (attempts : ℕ) (exhausted : TransportError) (P : ℕ → S → Type 0) where
  module _ (endures : (n : ℕ) (s : S) → P n s → Endures P n (round s))
      (pauses : (n i : ℕ) (s : S) → P n s → P n (pause i s)) where
    retry_from-Succeeds :
        (n left attempt : ℕ) (s : S)
        → attempt + n ≤ attempts
        → n < left
        → P n s
        → Succeeds P n (retry_from round pause attempts exhausted left attempt s)
    unfolding retry_from
    retry_from-Succeeds n zero attempt s b l p = absurd (omega arith)
    retry_from-Succeeds n (suc left) attempt s b l p = elim (endures n s p) [
      | inl (a, q, h) ↦ rw (q, retry_from) (a, n, omega arith, refl, h)
      | inr (m, x, e, q, h) ↦
          let more : ltb attempt attempts ≡ true = ground arith in
          let (a, k, le, answer, held) =
            retry_from-Succeeds m left (suc attempt) (pause attempt (round s).1) (omega arith)
              (omega arith) (pauses m attempt (round s).1 h) in
          rw (q, more, retry_from) (a, k, omega (arith, le, e), answer, held)
    ]

    -- Fewer failures than attempts do not keep the loop from an answer.
    pub retry-Succeeds :
        (n : ℕ) (s : S)
        → n < attempts
        → P n s
        → Succeeds P n (retry round pause attempts exhausted s)
    unfolding retry
    retry-Succeeds n s b p = retry_from-Succeeds n attempts 1 s (omega arith) b p
