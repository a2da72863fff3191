-- ===== src/Bridge/Address.antt =====
-- `offset_len_to_lba`: exactly the aligned requests are translated, and the translation is exact.
use native.Mathlib.Nat.{div-add-mod', mul-mod_left, mul-div_left, mul-pos}
use temporal_nbd.Prelude.{ℕ, ◌*◌, ◌≤◌, ◌<◌, ◌≡◌, ◌↔◌, arith, ok, err, u32_max}
use temporal_nbd.Errors.{EngineError, errno, einval}
use temporal_nbd.Bridge.{offset_len_to_lba}

-- The blocks `lba .. lba + count` are the bytes `offset .. offset + len`.
pub record Translates (offset len block_size lba count : ℕ) : Type 0 where
  pub block_pos : 0 < block_size
  pub count_pos : 0 < count
  pub count_bound : count ≤ u32_max
  pub same_start : lba * block_size ≡ offset
  pub same_length : count * block_size ≡ len

Translates-of_ok :
    (offset len block_size lba count : ℕ)
    → offset_len_to_lba offset len block_size ≡ ok (lba, count)
    → Translates offset len block_size lba count
unfolding offset_len_to_lba
Translates-of_ok offset len block_size lba count h =
    grind (arith, div-add-mod' offset block_size, div-add-mod' len block_size)

offset_len_to_lba-mul :
    (block_size lba count : ℕ)
    → 0 < block_size
    → 0 < count
    → count ≤ u32_max
    → offset_len_to_lba (lba * block_size) (count * block_size) block_size ≡ ok (lba, count)
unfolding offset_len_to_lba
offset_len_to_lba-mul block_size lba count b c k = ground (
  arith,
  mul-pos c b,
  mul-mod_left lba block_size,
  mul-mod_left count block_size,
  mul-div_left lba b,
  mul-div_left count b,
)

-- A request is translated to the blocks `lba .. lba + count` exactly if these blocks are its bytes
-- and their number is positive and fits into 32 bits.
pub offset_len_to_lba_exact :
    (offset len block_size lba count : ℕ)
    → (offset_len_to_lba offset len block_size ≡ ok (lba, count))
      ↔ Translates offset len block_size lba count
offset_len_to_lba_exact offset len block_size lba count = (
  Translates-of_ok offset len block_size lba count,
  λ t.
      rw (← t.same_start, ← t.same_length)
        (offset_len_to_lba-mul block_size lba count t.block_pos t.count_pos t.count_bound),
)

-- Every request that is not translated is refused with `EINVAL`.
pub offset_len_to_lba_refuses :
    (offset len block_size : ℕ) (x : EngineError)
    → offset_len_to_lba offset len block_size ≡ err x
    → errno x ≡ einval
unfolding offset_len_to_lba
offset_len_to_lba_refuses offset len block_size x h = ground arith
