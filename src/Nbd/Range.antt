-- ===== src/Nbd/Range.antt =====
-- `validate_range`: exactly the requests that the bridge translates to blocks of the volume.
use native.Mathlib.Nat.{div-add-mod', div-le_self, add-mul, le_of_mul-le-mul_right}
use temporal_nbd.Prelude.{ℕ, ◌+◌, ◌/◌, ◌%◌, ◌≤◌, ◌<◌, ◌≡◌, ◌↔◌, ◌⊎◌, arith, ok, err, u32_max}
use temporal_nbd.Errors.{einval}
use temporal_nbd.Geometry.{VolumeGeometry}
use temporal_nbd.Geometry.Laws.{IsSized}
use temporal_nbd.Bridge.{offset_len_to_lba}
use temporal_nbd.Bridge.Address.{Translates, offset_len_to_lba_exact}
use temporal_nbd.Nbd.Wire.{validate_range}

-- The bytes `offset .. offset + len` are a positive number of whole blocks of the volume.
pub record InVolume (g : VolumeGeometry) (offset len : ℕ) : Type 0 where
  pub some_bytes : 0 < len
  pub aligned : offset % g.block_size_bytes ≡ 0
  pub whole : len % g.block_size_bytes ≡ 0
  pub inside : offset + len ≤ g.size_bytes

pub validate_range-cases :
    (g : VolumeGeometry) (offset len : ℕ)
    → (validate_range g offset len ≡ ok tt) ⊎ (validate_range g offset len ≡ err einval)
unfolding validate_range
validate_range-cases g offset len = ground arith

module _ (g : VolumeGeometry) (offset len : ℕ) (s : IsSized g) where
  accepted-InVolume : validate_range g offset len ≡ ok tt → InVolume g offset len
  unfolding validate_range
  accepted-InVolume h = ground arith

  InVolume-accepted : InVolume g offset len → validate_range g offset len ≡ ok tt
  unfolding validate_range
  InVolume-accepted v = ground (arith, v.some_bytes, v.aligned, v.whole, v.inside, s.size_bound)

  -- The check accepts exactly the positive numbers of whole blocks in the volume, and it refuses
  -- every other request with `EINVAL`.
  pub validate_range_exact :
      ((validate_range g offset len ≡ ok tt) ↔ InVolume g offset len)
      × ((validate_range g offset len ≡ ok tt) ⊎ (validate_range g offset len ≡ err einval))
  validate_range_exact = ((accepted-InVolume, InVolume-accepted), validate_range-cases g offset len)

  quotients-Translates :
      len ≤ u32_max
      → InVolume g offset len
      → Translates offset len g.block_size_bytes
          (offset / g.block_size_bytes)
          (len / g.block_size_bytes)
  quotients-Translates b v = record {
    block_pos = s.block_pos;
    count_pos = grind (arith, div-add-mod' len g.block_size_bytes, v.some_bytes, v.whole);
    count_bound = omega (arith, div-le_self len g.block_size_bytes, b);
    same_start = omega (arith, div-add-mod' offset g.block_size_bytes, v.aligned);
    same_length = omega (arith, div-add-mod' len g.block_size_bytes, v.whole);
  }

  -- What the check accepts, the bridge translates to a positive number of blocks in the volume: the
  -- request is not refused further on for its range.
  pub validate_range-Translates :
      len ≤ u32_max
      → validate_range g offset len ≡ ok tt
      → let lba = offset / g.block_size_bytes in
        let count = len / g.block_size_bytes in
        (offset_len_to_lba offset len g.block_size_bytes ≡ ok (lba, count))
        × (0 < count)
        × (lba + count ≤ g.total_blocks)
  validate_range-Translates b h =
      let v = accepted-InVolume h in
      let lba = offset / g.block_size_bytes in
      let count = len / g.block_size_bytes in
      let t = quotients-Translates b v in
      (
        (offset_len_to_lba_exact offset len g.block_size_bytes lba count).1 t,
        t.count_pos,
        le_of_mul-le-mul_right {m = lba + count} {n = g.total_blocks}
            (omega (
              arith,
              add-mul lba count g.block_size_bytes,
              t.same_start,
              t.same_length,
              s.tiles,
              v.inside,
            ))
            s.block_pos,
      )
