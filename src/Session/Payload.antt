-- ===== src/Session/Payload.antt =====
-- The bytes of a batch of src/session.rs: what `summarize_writes` comes to, and how it splits.
use temporal_nbd.Prelude.{
  ℕ, zero, suc, ◌+◌, ◌≤◌, ◌≡◌, refl, List, [], ◌∷◌, arith, min, max, take, drop, length, usize_max,
}
use temporal_nbd.Transport.{BlockWrite}
use temporal_nbd.Session.Requests.{summary}

-- The bytes of a batch.
abbrev pub payload : List BlockWrite → ℕ
payload [] = 0
payload (w ∷ ws) = length w.block_data + payload ws

pub summary-payload :
    (ws : List BlockWrite) (totals : ℕ × ℕ × ℕ)
    → totals.0 ≤ usize_max
    → (summary ws totals).0 ≡ min (totals.0 + payload ws) usize_max
summary-payload [] totals b = omega (arith, b)
summary-payload (w ∷ ws) (total, lo, hi) b =
    let total' : ℕ = min (total + length w.block_data) usize_max in
    let rest = summary-payload ws (total', min lo w.lba, max hi w.lba) (omega arith) in
    omega (arith, rest)

payload_of_none : (m : ℕ) → payload (take m []) ≡ 0
payload_of_none zero = refl
payload_of_none (suc m) = refl

pub payload-split :
    (n m : ℕ) (ws : List BlockWrite)
    → payload (take (n + m) ws) ≡ payload (take n ws) + payload (take m (drop n ws))
payload-split zero m ws = let start : 0 + m ≡ m = omega arith in rw start (omega arith)
payload-split (suc n) m [] =
    let step : suc n + m ≡ suc (n + m) = omega arith in rw step (omega (arith, payload_of_none m))
payload-split (suc n) m (w ∷ ws) =
    let step : suc n + m ≡ suc (n + m) = omega arith in
    rw step (omega (arith, payload-split n m ws))

pub payload-take-drop :
    (n : ℕ) (ws : List BlockWrite) → payload ws ≡ payload (take n ws) + payload (drop n ws)
payload-take-drop zero ws = omega arith
payload-take-drop (suc n) [] = refl
payload-take-drop (suc n) (w ∷ ws) = omega (arith, payload-take-drop n ws)
