-- ===== src/Transport/Batches.antt =====
-- What batches do to a volume: only the addresses that they name matter, and a batch may be sent
-- in parts.
use temporal_nbd.Prelude.{ℕ, zero, suc, ◌≡◌, refl, ◌∙◌, List, [], ◌∷◌, arith, take, drop}
use temporal_nbd.Transport.{BlockWrite, Volume, store, store_all}
use temporal_nbd.Transport.Laws.{Misses}

-- Two volumes that agree wherever a batch does not write agree after it.
pub store_all_agree :
    (ws : List BlockWrite) (u v : Volume) (lba : ℕ)
    → ((j : ℕ) → Misses j ws → u j ≡ v j)
    → store_all ws u lba ≡ store_all ws v lba
store_all_agree [] u v lba h = h lba tt
store_all_agree (w ∷ ws) u v lba h =
    store_all_agree ws (store w.lba w.block_data u) (store w.lba w.block_data v) lba
      (λ j m. ground (arith, h j, m))

-- Sending the first writes of a batch and then the others is sending the batch.
pub store_all-take :
    (n : ℕ) (ws : List BlockWrite) (v : Volume)
    → store_all (drop n ws) (store_all (take n ws) v) ≡ store_all ws v
store_all-take zero ws v = refl
store_all-take (suc n) [] v = refl
store_all-take (suc n) (w ∷ ws) v = store_all-take n ws (store w.lba w.block_data v)

-- A batch does not touch the addresses that it does not name.
pub store_all-Misses :
    (ws : List BlockWrite) (v : Volume) (lba : ℕ) → Misses lba ws → store_all ws v lba ≡ v lba
store_all-Misses [] v lba h = refl
store_all-Misses (w ∷ ws) v lba h = store_all-Misses ws _ lba h.1 ∙ ground (arith, h.0)
