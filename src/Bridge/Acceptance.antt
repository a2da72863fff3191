-- ===== src/Bridge/Acceptance.antt =====
-- The requests that `handle_request` passes on to the engine, and those that the engine takes.
use native.Mathlib.Nat.{div-add-mod'}
use temporal_nbd.Prelude.{
  ℕ, ◌/◌, ◌%◌, ◌≡◌, true, false, arith, ok, err, Result-cases, inl, inr, length, ◌⊎◌,
}
use temporal_nbd.Errors.{EngineError, errno, einval}
use temporal_nbd.Geometry.{VolumeGeometry}
use temporal_nbd.Geometry.Laws.{IsSized}
use temporal_nbd.Transport.{Bytes}
use temporal_nbd.Engine.ReadLaws.{InRange}
use temporal_nbd.Engine.WriteLaws.{Fits}
use temporal_nbd.Bridge.{offset_len_to_lba}
use temporal_nbd.Bridge.Address.{Translates, offset_len_to_lba_exact, offset_len_to_lba_refuses}
use temporal_nbd.Bridge.Spec.{accepts}

module _ (g : VolumeGeometry) (s : IsSized g) (offset len : ℕ) where
  abbrev size : ℕ
  size = g.block_size_bytes

  -- An accepted request is translated to its blocks, which the engine reads.
  pub accepted_blocks :
      accepts g offset len ≡ true
      → (offset_len_to_lba offset len size ≡ ok (offset / size, len / size))
        × InRange g (offset / size) (len / size)
  accepted_blocks h =
      let t : Translates offset len size (offset / size) (len / size) = record {
        block_pos = s.block_pos;
        count_pos = grind (arith, div-add-mod' len size);
        count_bound = ground arith;
        same_start = grind (arith, div-add-mod' offset size);
        same_length = grind (arith, div-add-mod' len size);
      } in
      (
        (offset_len_to_lba_exact offset len size (offset / size) (len / size)).1 t,
        record { some_blocks = t.count_pos; inside = ground arith },
      )

  -- Why a request that is not accepted is refused: it has no translation, or the engine refuses the
  -- blocks.
  abbrev pub Refusal : Type 0
  Refusal =
      ((x : EngineError) × (offset_len_to_lba offset len size ≡ err x) × (errno x ≡ einval))
      ⊎ ((offset_len_to_lba offset len size ≡ ok (offset / size, len / size))
          × (len % size ≡ 0)
          × ¬ InRange g (offset / size) (len / size))

  pub refused_blocks : accepts g offset len ≡ false → Refusal
  unfolding offset_len_to_lba
  refused_blocks h = elim (Result-cases (offset_len_to_lba offset len size)) [
    | inr (x, e) ↦ inl (x, e, offset_len_to_lba_refuses offset len size x e)
    | inl (x, e) ↦ inr (ground arith, ground arith, λ r. ground arith)
  ]

module _ (g : VolumeGeometry) (s : IsSized g) (offset : ℕ) (bytes : Bytes) where
  -- The blocks of an accepted write fit into the volume.
  pub accepted-Fits :
      accepts g offset (length bytes) ≡ true → Fits g (offset / g.block_size_bytes) bytes
  accepted-Fits h = record {
    some_bytes = ground arith;
    whole = ground arith;
    inside = ground arith;
  }

  pub refused-Fits :
      length bytes % g.block_size_bytes ≡ 0
      → ¬ InRange g (offset / g.block_size_bytes) (length bytes / g.block_size_bytes)
      → ¬ Fits g (offset / g.block_size_bytes) bytes
  refused-Fits w n f = n (record {
    some_blocks = grind (arith, div-add-mod' (length bytes) g.block_size_bytes, f.some_bytes, w);
    inside = f.inside;
  })
