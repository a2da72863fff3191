-- ===== src/Bridge/Represents.antt =====
-- The device that the state of a caching engine represents, over the volume behind its transport.
use temporal_nbd.Prelude.{ℕ, ◌≡◌, refl, Bool, none, some, true, false, arith}
use temporal_nbd.Transport.{BackendTransport}
use temporal_nbd.Transport.Laws.{BlockStore}
use temporal_nbd.Engine.State.{Engine, DirtyCache}
use temporal_nbd.Engine.Settled.{IsAbsent, contents-IsAbsent}
use temporal_nbd.BTree.{lookup}
use temporal_nbd.Engine.View.{view}
use temporal_nbd.Bridge.Spec.{Device}

abbrev pub is_pending : ℕ → DirtyCache → Bool
is_pending lba d = elim (lookup lba d) [ some block ↦ true | none ↦ false ]

pub absent_of_pending : (lba : ℕ) (d : DirtyCache) → is_pending lba d ≡ false → lookup lba d ≡ none
absent_of_pending lba d h = ground arith

pub pending_of_absent : (lba : ℕ) (d : DirtyCache) → lookup lba d ≡ none → is_pending lba d ≡ false
pending_of_absent lba d h = rw (h, is_pending) refl

module _ {T : BackendTransport} {block_size : ℕ} (S : BlockStore T block_size) where
  -- The device that an engine is: a block in its cache is pending.
  abbrev pub device_of : Engine T → Device
  device_of e = record {
    seen = view S e;
    stored = S.contents e.transport;
    pending = λ lba. is_pending lba e.dirty;
  }

  pub settled_at :
      (e e' : Engine T) (lba : ℕ)
      → (IsAbsent lba e → IsAbsent lba e')
      → view S e' lba ≡ view S e lba
      → is_pending lba e.dirty ≡ false
      → (is_pending lba e'.dirty ≡ false)
        × (S.contents e'.transport lba ≡ S.contents e.transport lba)
  settled_at e e' lba keep same h =
      let absent = absent_of_pending lba e.dirty h in
      (
        pending_of_absent lba e'.dirty (keep absent),
        contents-IsAbsent S e e' lba absent (keep absent) same,
      )
