-- ===== src/Engine/View.antt =====
-- What a client of the engine sees: the volume behind the transport under the dirty blocks. The
-- invariant of the engine's state, and the steps that keep both.
use temporal_nbd.Prelude.{
  ℕ, zero, suc, ◌≤◌, ◌<◌, ◌≡◌, refl, ◌∙◌, sym, ap, none, some, [], ◌∷◌, arith, length, take, drop,
  All,
}
use temporal_nbd.BTree.{lookup, IsSorted}
use temporal_nbd.BTree.Laws.{lookup_of_Above}
use temporal_nbd.Geometry.{VolumeGeometry}
use temporal_nbd.Geometry.Laws.{IsSized}
use temporal_nbd.Transport.{BackendTransport, Bytes, Volume, store, store_all}
use temporal_nbd.Transport.Blocks.{IsUniform}
use temporal_nbd.Transport.Laws.{BlockStore, Misses, AreBlocks}
use temporal_nbd.Engine.State.{DirtyCache, Engine}
use temporal_nbd.Engine.Flushing.{to_writes}

-- The volume with the dirty blocks over it.
abbrev pub overlay : DirtyCache → Volume → Volume
overlay d v lba = elim (lookup lba d) [ some block ↦ block | none ↦ v lba ]

-- Where the cache has a block, the volume under it does not matter.
pub overlay_ext :
    (d : DirtyCache) (u v : Volume) (lba : ℕ)
    → (lookup lba d ≡ none → u lba ≡ v lba)
    → overlay d u lba ≡ overlay d v lba
overlay_ext [] u v lba h = h refl
overlay_ext (e ∷ d) u v lba h = ground (arith, overlay_ext d u v lba)

pub overlay_found :
    (d : DirtyCache) (v : Volume) (lba : ℕ) {block : Bytes}
    → lookup lba d ≡ some block
    → overlay d v lba ≡ block
overlay_found d v lba h = rw (h, overlay)

pub overlay-lookup :
    (c d : DirtyCache) (v : Volume) (lba : ℕ)
    → lookup lba c ≡ lookup lba d
    → overlay c v lba ≡ overlay d v lba
overlay-lookup c d v lba h = rw (h, overlay)

-- The dirty blocks lie in the volume and have its block size.
abbrev pub IsCached : VolumeGeometry → DirtyCache → Type 0
IsCached g d = All (λ x. (x.0 < g.total_blocks) × (length x.1 ≡ g.block_size_bytes)) d

module _ {T : BackendTransport} {block_size : ℕ} (S : BlockStore T block_size) where
  abbrev pub view : Engine T → Volume
  view e = overlay e.dirty (S.contents e.transport)

  pub record IsValid (e : Engine T) : Type 0 where
    pub block_eq : e.geometry.block_size_bytes ≡ block_size
    pub sized : IsSized e.geometry
    pub sorted : IsSorted e.dirty
    pub cached : IsCached e.geometry e.dirty
    pub watermark_pos : 0 < e.config.dirty_high_watermark_blocks
    pub sound : S.IsSound e.transport

  -- A step that changes nothing that a client sees, and keeps the invariant.
  pub record Keeps (e e' : Engine T) : Type 0 where
    pub valid : IsValid e'
    pub same_geometry : e'.geometry ≡ e.geometry
    pub same_config : e'.config ≡ e.config
    pub same_view : (lba : ℕ) → view e' lba ≡ view e lba

  pub Keeps-refl : (e : Engine T) → IsValid e → Keeps e e
  Keeps-refl e v = record {
    valid = v;
    same_geometry = refl;
    same_config = refl;
    same_view = λ lba. refl;
  }

  pub Keeps-trans : {e e' e'' : Engine T} → Keeps e e' → Keeps e' e'' → Keeps e e''
  Keeps-trans h k = record {
    valid = k.valid;
    same_geometry = k.same_geometry ∙ h.same_geometry;
    same_config = k.same_config ∙ h.same_config;
    same_view = λ lba. k.same_view lba ∙ h.same_view lba;
  }

overlay-length :
    (g : VolumeGeometry) (d : DirtyCache) (v : Volume) (lba : ℕ)
    → IsCached g d
    → length (v lba) ≡ g.block_size_bytes
    → length (overlay d v lba) ≡ g.block_size_bytes
overlay-length g [] v lba c h = h
overlay-length g (e ∷ d) v lba c h = ground (arith, overlay-length g d v lba c.1 h)

module _ {T : BackendTransport} {block_size : ℕ} (S : BlockStore T block_size) where
  -- Every block that a client sees has the block size.
  pub view-IsUniform :
      {g : VolumeGeometry} (e : Engine T)
      → IsValid S e
      → e.geometry ≡ g
      → IsUniform g.block_size_bytes (view S e)
  view-IsUniform e v h lba =
      overlay-length e.geometry e.dirty (S.contents e.transport) lba v.cached
        (S.length-contents e.transport lba v.sound ∙ sym v.block_eq)
      ∙ ap (λ g. g.block_size_bytes) h

  -- A new state of the transport over the same volume.
  pub transport-Keeps :
      (e : Engine T) (t : T.State)
      → IsValid S e
      → S.IsSound t
      → ((lba : ℕ) → S.contents t lba ≡ S.contents e.transport lba)
      → Keeps S e (record e { transport = t })
  transport-Keeps e t v s h = record {
    valid = record {
      block_eq = v.block_eq;
      sized = v.sized;
      sorted = v.sorted;
      cached = v.cached;
      watermark_pos = v.watermark_pos;
      sound = s;
    };
    same_geometry = refl;
    same_config = refl;
    same_view = λ lba. overlay_ext e.dirty (S.contents t) (S.contents e.transport) lba (λ _. h lba);
  }

store_all_absent :
    (d : DirtyCache) (n : ℕ) (u v : Volume) (lba : ℕ)
    → u lba ≡ v lba
    → store_all (to_writes (take n d)) u lba ≡ store_all (to_writes (take n d)) v lba
store_all_absent d zero u v lba h = h
store_all_absent [] (suc n) u v lba h = h
store_all_absent (e ∷ d) (suc n) u v lba h = store_all_absent d n _ _ lba (ground arith)

-- Writing out the first `n` blocks and dropping them from the cache leaves the view as it was.
pub overlay-drop :
    (n : ℕ) (d : DirtyCache) (v : Volume) (lba : ℕ)
    → IsSorted d
    → overlay (drop n d) (store_all (to_writes (take n d)) v) lba ≡ overlay d v lba
overlay-drop zero d v lba s = refl
overlay-drop (suc n) [] v lba s = refl
overlay-drop (suc n) (e ∷ d) v lba s =
    overlay-drop n d (store e.0 e.1 v) lba s.1 ∙ ground (arith, lookup_of_Above e.0 d s.0)

pub Misses-of_none :
    (n lba : ℕ) (d : DirtyCache) → lookup lba d ≡ none → Misses lba (to_writes (take n d))
Misses-of_none zero lba d h = tt
Misses-of_none (suc n) lba [] h = tt
Misses-of_none (suc n) lba (e ∷ d) h = ground (arith, Misses-of_none n lba d)

pub AreBlocks-to_writes :
    (g : VolumeGeometry) (n : ℕ) (d : DirtyCache)
    → IsCached g d
    → AreBlocks g.block_size_bytes (to_writes (take n d))
AreBlocks-to_writes g zero d h = tt
AreBlocks-to_writes g (suc n) [] h = tt
AreBlocks-to_writes g (suc n) (e ∷ d) h = (h.0.1, AreBlocks-to_writes g n d h.1)

pub length-to_writes-take : (n : ℕ) (d : DirtyCache) → length (to_writes (take n d)) ≤ n
length-to_writes-take zero d = omega arith
length-to_writes-take (suc n) [] = omega arith
length-to_writes-take (suc n) (e ∷ d) = omega (arith, length-to_writes-take n d)
