-- ===== src/Geometry/Laws.antt =====
-- `VolumeGeometry::new`: which sizes make a volume, and what its block count is.
use native.Mathlib.Nat.{div-add-mod', mul-pos, mul-mod_left, mul-div_left}
use temporal_nbd.Prelude.{ℕ, ◌*◌, ◌≤◌, ◌<◌, ◌≡◌, ◌↔◌, ok, arith, u32_max, u64_max}
use temporal_nbd.Geometry.{VolumeGeometry, new}

-- What holds of every geometry that `new` makes of a `u64` and a `u32`.
pub record IsSized (g : VolumeGeometry) : Type 0 where
  pub block_pos : 0 < g.block_size_bytes
  pub block_bound : g.block_size_bytes ≤ u32_max
  pub size_bound : g.size_bytes ≤ u64_max
  pub tiles : g.total_blocks * g.block_size_bytes ≡ g.size_bytes
  pub size_pos : 0 < g.total_blocks

new_self : (g : VolumeGeometry) → IsSized g → new g.size_bytes g.block_size_bytes ≡ ok g
unfolding new
new_self g v = rw (← v.tiles) (
    ground (
      arith,
      v.block_pos,
      v.size_pos,
      mul-pos v.size_pos v.block_pos,
      mul-mod_left g.total_blocks g.block_size_bytes,
      mul-div_left g.total_blocks v.block_pos,
    ))

-- `new` accepts a size and a block size exactly if they tile: the geometry that it then returns
-- is the one with these sizes whose blocks are positive in number and in size and fill the volume.
pub new_exact :
    (size block : ℕ) (g : VolumeGeometry)
    → size ≤ u64_max
    → block ≤ u32_max
    → (new size block ≡ ok g) ↔ (IsSized g × (g.size_bytes ≡ size) × (g.block_size_bytes ≡ block))
unfolding new
new_exact size block g h k = (accepted, tiled)
  where
    accepted :
        new size block ≡ ok g → IsSized g × (g.size_bytes ≡ size) × (g.block_size_bytes ≡ block)
    accepted e = grind (arith, div-add-mod' size block)

    tiled : IsSized g × (g.size_bytes ≡ size) × (g.block_size_bytes ≡ block) → new size block ≡ ok g
    tiled t = rw (← t.1, ← t.2) (new_self g t.0)

pub total-le-u64_max : (g : VolumeGeometry) → IsSized g → g.total_blocks ≤ u64_max
total-le-u64_max g s = grind (arith, s.tiles, s.block_pos, s.size_bound)
