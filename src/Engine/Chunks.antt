-- ===== src/Engine/Chunks.antt =====
-- The loop of `write_blocks` over the chunks of its payload: what the dirty cache holds after it.
use native.Mathlib.Decide.{dec_lt}
use native.Mathlib.Nat.{zero-mul, suc-mul}
use temporal_nbd.Prelude.{
  ℕ, zero, suc, ◌+◌, ◌-◌, ◌*◌, ◌≤◌, ◌<◌, ◌≡◌, refl, ◌∙◌, sym, ap, some, List, [], ◌∷◌, arith,
  length, length-take, length-drop, take, drop, drop-drop, ok, u64_max,
}
use temporal_nbd.BTree.{lookup, insert, IsSorted}
use temporal_nbd.BTree.Laws.{lookup-insert, insert-IsSorted, All-insert}
use temporal_nbd.Geometry.{VolumeGeometry}
use temporal_nbd.Transport.{Bytes}
use temporal_nbd.Engine.State.{DirtyCache}
use temporal_nbd.Engine.Operations.{chunks_exact, insert_chunks}
use temporal_nbd.Engine.View.{IsCached}

-- The chunks under consecutive addresses from `lba` on.
abbrev pub put_all : ℕ → List Bytes → DirtyCache → DirtyCache
put_all lba [] d = d
put_all lba (c ∷ cs) d = put_all (suc lba) cs (insert lba c d)

pub insert_chunks-eq :
    (start index : ℕ) (cs : List Bytes) (d : DirtyCache) {lba : ℕ}
    → lba ≡ start + index
    → lba + length cs ≤ u64_max
    → insert_chunks start index cs d ≡ (ok tt, put_all lba cs d)
unfolding insert_chunks
insert_chunks-eq start index [] d e h = refl
insert_chunks-eq start index (c ∷ cs) d {lba} e h =
    ground (arith, insert_chunks-eq start (suc index) cs (insert lba c d) {lba = suc lba})

pub length-chunks_exact : (count size : ℕ) (p : Bytes) → length (chunks_exact count size p) ≡ count
length-chunks_exact zero size p = refl
length-chunks_exact (suc count) size p = ap suc (length-chunks_exact count size (drop size p))

lookup-put_all_below :
    (j lba : ℕ) (cs : List Bytes) (d : DirtyCache)
    → j < lba
    → lookup j (put_all lba cs d) ≡ lookup j d
lookup-put_all_below j lba [] d h = refl
lookup-put_all_below j lba (c ∷ cs) d h =
    lookup-put_all_below j (suc lba) cs (insert lba c d) (omega arith)
    ∙ ground (arith, lookup-insert j lba c d)

pub lookup-put_all_outside :
    (j lba : ℕ) (cs : List Bytes) (d : DirtyCache)
    → (lba ≤ j → lba + length cs ≤ j)
    → lookup j (put_all lba cs d) ≡ lookup j d
lookup-put_all_outside j lba [] d h = refl
lookup-put_all_outside j lba (c ∷ cs) d h =
    lookup-put_all_outside j (suc lba) cs (insert lba c d) (omega arith)
    ∙ ground (arith, lookup-insert j lba c d)

-- The bytes of the `k`-th block of a payload.
abbrev pub slice : ℕ → ℕ → Bytes → Bytes
slice size k p = take size (drop (k * size) p)

pub slice_zero : (size : ℕ) (p : Bytes) → slice size 0 p ≡ take size p
slice_zero size p = ap (λ n. take size (drop n p)) (zero-mul size)

pub slice-drop : (size k : ℕ) (p : Bytes) → slice size k (drop size p) ≡ slice size (suc k) p
slice-drop size k p =
    ap (take size)
      (drop-drop size (k * size) p ∙ ap (λ n. drop n p) (omega (arith, suc-mul k size)))

pub lookup-put_all :
    (j lba count size : ℕ) (p : Bytes) (d : DirtyCache)
    → lba ≤ j
    → j < lba + count
    → lookup j (put_all lba (chunks_exact count size p) d) ≡ some (slice size (j - lba) p)
lookup-put_all j lba zero size p d h k = absurd (omega arith)
lookup-put_all j lba (suc count) size p d h k = elim (dec_lt lba j) [
  | yes later ↦
      let index : j - lba ≡ suc (j - suc lba) = omega arith in
      lookup-put_all j (suc lba) count size (drop size p) (insert lba (take size p) d) later
        (omega arith)
      ∙ ap some (slice-drop size (j - suc lba) p ∙ ap (λ n. slice size n p) (sym index))
  | no here ↦
      let first : slice size (j - lba) p ≡ take size p =
        ap (λ n. slice size n p) (omega arith) ∙ slice_zero size p in
      lookup-put_all_below j (suc lba) (chunks_exact count size (drop size p))
        (insert lba (take size p) d) (omega arith)
      ∙ ground (arith, lookup-insert j lba (take size p) d)
]

pub put_all-IsSorted :
    (lba : ℕ) (cs : List Bytes) (d : DirtyCache) → IsSorted d → IsSorted (put_all lba cs d)
put_all-IsSorted lba [] d s = s
put_all-IsSorted lba (c ∷ cs) d s = put_all-IsSorted (suc lba) cs _ (insert-IsSorted lba c d s)

pub put_all-IsCached :
    (g : VolumeGeometry) (lba count : ℕ) (p : Bytes) (d : DirtyCache)
    → lba + count ≤ g.total_blocks
    → length p ≡ count * g.block_size_bytes
    → IsCached g d
    → IsCached g (put_all lba (chunks_exact count g.block_size_bytes p) d)
put_all-IsCached g lba zero p d h l c = c
put_all-IsCached g lba (suc count) p d h l c =
    let size = g.block_size_bytes in
    let total : length p ≡ count * size + size = l ∙ suc-mul count size in
    put_all-IsCached g (suc lba) count (drop size p) (insert lba (take size p) d) (omega arith)
      (omega (arith, length-drop size p))
      (All-insert _ lba (take size p) d (omega arith, omega (arith, length-take size p)) c)
