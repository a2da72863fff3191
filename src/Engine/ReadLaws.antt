-- ===== src/Engine/ReadLaws.antt =====
-- `read_blocks`: which requests are accepted, and that a read answers with what a client sees, the
-- blocks of the volume under the dirty ones.
use native.Mathlib.Nat.{mul-le-mul_right, le_refl, le_trans}
use temporal_nbd.Prelude.{
  ℕ, ◌+◌, ◌-◌, ◌*◌, ◌≤◌, ◌<◌, ◌≡◌, refl, ◌∙◌, sym, ap, subst, subst₂, inl, inr, [], ◌∷◌, arith,
  length, take_all, drop_all, replicate, All, All-mono, Result, ok, err, Result-cases, ◌>>=◌,
  usize_max,
}
use temporal_nbd.BTree.{range, IsSorted}
use temporal_nbd.BTree.Laws.{lookup-range, All-range, range-IsSorted}
use temporal_nbd.Errors.{EngineError, errno, einval}
use temporal_nbd.Geometry.{VolumeGeometry}
use temporal_nbd.Geometry.Laws.{IsSized, total-le-u64_max}
use temporal_nbd.Transport.{BackendTransport, Bytes, Volume, store, store_all, blocks}
use temporal_nbd.Transport.Blocks.{IsUniform, blocks_ext, copy_into, copy_into-blocks}
use temporal_nbd.Transport.Laws.{BlockStore}
use temporal_nbd.Engine.State.{Engine, DirtyCache}
use temporal_nbd.Engine.Flushing.{to_writes}
use temporal_nbd.Engine.Reading.{overlay_dirty, finish_read, read_chunks, read_blocks, check_read}
use temporal_nbd.Engine.View.{
  transport-Keeps, overlay, overlay-lookup, overlay-drop, view, IsValid, Keeps,
}
use temporal_nbd.Engine.ReadLoop.{Reads, Holds, ReadPost, read_chunks-ReadPost}

-- A positive number of blocks that lie in the volume.
pub record InRange (g : VolumeGeometry) (start count : ℕ) : Type 0 where
  pub some_blocks : 0 < count
  pub inside : start + count ≤ g.total_blocks

size-le-usize_max :
    (g : VolumeGeometry) (start count : ℕ)
    → IsSized g
    → InRange g start count
    → count * g.block_size_bytes ≤ usize_max
size-le-usize_max g start count s r =
    le_trans (mul-le-mul_right {m = count} {n = g.total_blocks} g.block_size_bytes (omega arith))
      (omega (arith, s.tiles, s.size_bound))

-- Dirty blocks that lie in the range `start .. start + count`.
abbrev Within : ℕ → ℕ → ℕ → DirtyCache → Type 0
Within size start count d = All (λ x. (start ≤ x.0) × (x.0 < start + count) × (length x.1 ≡ size)) d

store-IsUniform :
    {size : ℕ} (lba : ℕ) (block : Bytes) (v : Volume)
    → length block ≡ size
    → IsUniform size v
    → IsUniform size (store lba block v)
store-IsUniform lba block v h u j = ground (arith, u j)

overlay_dirty-step :
    {size : ℕ} (start lba : ℕ) (block : Bytes) (d : DirtyCache) (output : Bytes)
    → length block ≡ size
    → (lba - start) * size ≤ usize_max
    → overlay_dirty size start ((lba, block) ∷ d) output
      ≡ overlay_dirty size start d (copy_into output ((lba - start) * size) block)
unfolding overlay_dirty
overlay_dirty-step start lba block d output h k = ground arith

overlay_dirty-eq :
    {size : ℕ} (start count : ℕ) (d : DirtyCache) (v : Volume)
    → IsUniform size v
    → count * size ≤ usize_max
    → Within size start count d
    → overlay_dirty size start d (blocks v start count)
      ≡ ok (blocks (store_all (to_writes d) v) start count)
unfolding overlay_dirty
overlay_dirty-eq start count [] v u b w = refl
overlay_dirty-eq {size} start count ((lba, block) ∷ d) v u b (here, rest) =
    let fits : (lba - start) * size ≤ usize_max =
      le_trans (mul-le-mul_right {m = lba - start} {n = count} size (omega arith)) b in
    overlay_dirty-step start lba block d (blocks v start count) here.2 fits
    ∙ ap (overlay_dirty size start d)
        (copy_into-blocks v start count lba block u here.2 here.0 here.1)
    ∙ overlay_dirty-eq start count d (store lba block v) (store-IsUniform lba block v here.2 u) b
        rest

store_all-overlay :
    (d : DirtyCache) (v : Volume) (lba : ℕ)
    → IsSorted d
    → store_all (to_writes d) v lba ≡ overlay d v lba
store_all-overlay d v lba s =
    subst₂ (λ c k. overlay c (store_all (to_writes k) v) lba ≡ overlay d v lba)
      (drop_all d (le_refl _)) (take_all d (le_refl _)) (overlay-drop (length d) d v lba s)

check_read-ok :
    (g : VolumeGeometry) (start count : ℕ)
    → IsSized g
    → InRange g start count
    → check_read g start count ≡ ok (count * g.block_size_bytes)
unfolding check_read
check_read-ok g start count s r =
    ground (arith, total-le-u64_max g s, size-le-usize_max g start count s r)

errno_of_check_read :
    (g : VolumeGeometry) (start count : ℕ) {x : EngineError}
    → check_read g start count ≡ err x
    → errno x ≡ einval
unfolding check_read
errno_of_check_read g start count h = ground arith

pub InRange-of_ok :
    (g : VolumeGeometry) (start count : ℕ) {n : ℕ}
    → check_read g start count ≡ ok n
    → InRange g start count
unfolding check_read
InRange-of_ok g start count h = ground arith

check_read-err :
    (g : VolumeGeometry) (start count : ℕ)
    → ¬ InRange g start count
    → (x : EngineError) × (check_read g start count ≡ err x) × (errno x ≡ einval)
check_read-err g start count n = elim (Result-cases (check_read g start count)) [
  | inl (k, h) ↦ absurd (n (InRange-of_ok g start count h))
  | inr (x, h) ↦ (x, h, errno_of_check_read g start count h)
]

module _ {T : BackendTransport} {block_size : ℕ} (S : BlockStore T block_size) where
  finish_read-eq :
      (start count : ℕ) (e : Engine T)
      → IsValid S e
      → InRange e.geometry start count
      → finish_read T start count e (blocks (S.contents e.transport) start count)
        ≡ ok (blocks (view S e) start count)
  unfolding finish_read
  finish_read-eq start count e v r =
      let hi : ℕ = start + count in
      let d = range start hi e.dirty in
      let volume = S.contents e.transport in
      let size = e.geometry.block_size_bytes in
      let found : finish_read T start count e (blocks volume start count)
          ≡ overlay_dirty size start d (blocks volume start count) =
        ground (arith, total-le-u64_max e.geometry v.sized) in
      found
      ∙ overlay_dirty-eq start count d volume
          (λ lba. S.length-contents e.transport lba v.sound ∙ sym v.block_eq)
          (size-le-usize_max e.geometry start count v.sized r)
          (All-range (λ x. length x.1 ≡ size) start hi e.dirty
            (All-mono e.dirty (λ x h. h.1) v.cached))
      ∙ ap ok (
          blocks_ext _ (view S e) start count (λ j p q.
            store_all-overlay d volume j (range-IsSorted start hi e.dirty v.sorted)
            ∙ overlay-lookup d e.dirty volume j (lookup-range j start hi e.dirty p q)))

  finish_read-Reads :
      (start count : ℕ) (e : Engine T) (r : Result Bytes EngineError)
      → IsValid S e
      → InRange e.geometry start count
      → Reads T (blocks (S.contents e.transport) start count) r
      → Reads T (blocks (view S e) start count) (r >>= finish_read T start count e)
  finish_read-Reads start count e (ok out) v i h = rw (h, finish_read-eq start count e v i)
  finish_read-Reads start count e (err x) v i h = h

  -- The loop of a read that was accepted, from the block size of the geometry.
  read_chunks_post :
      (start count : ℕ) (e : Engine T)
      → IsValid S e
      → InRange e.geometry start count
      → let size = e.geometry.block_size_bytes in
        let volume = S.contents e.transport in
        let (answer, t) =
          read_chunks T count size count start 0 (replicate (count * size) 0) e.transport in
        Holds S volume t × Reads T (blocks volume start count) answer
  read_chunks_post start count e v i =
      let volume = S.contents e.transport in
      let uniform = λ (lba : ℕ). S.length-contents e.transport lba v.sound in
      subst
        (λ n.
          ReadPost S volume uniform (blocks volume start count)
            (read_chunks T count n count start 0 (replicate (count * n) 0) e.transport))
        (sym v.block_eq)
        (read_chunks-ReadPost S volume uniform count count start [] e.transport refl (le_refl _)
          (omega (arith, total-le-u64_max e.geometry v.sized, i.inside))
          (subst (λ n. count * n ≤ usize_max) v.block_eq
            (size-le-usize_max e.geometry start count v.sized i))
          (v.sound, λ lba. refl))

  -- Also where it fails, a read leaves the volume behind the transport as it was.
  pub read_blocks-Holds :
      (start count : ℕ) (e : Engine T)
      → IsValid S e
      → InRange e.geometry start count
      → Holds S (S.contents e.transport) (read_blocks T start count e).1.transport
  unfolding read_blocks
  read_blocks-Holds start count e v i =
      rw (check_read-ok e.geometry start count v.sized i, read_blocks)
        (read_chunks_post start count e v i).0

  -- A read of a range of the volume yields what a client sees there, or the error of a request
  -- that the transport failed. It keeps the invariant, the dirty blocks and what a client sees.
  pub read_blocks-Reads :
      (start count : ℕ) (e : Engine T)
      → IsValid S e
      → InRange e.geometry start count
      → let (answer, e') = read_blocks T start count e in
        Keeps S e e' × (e'.dirty ≡ e.dirty) × Reads T (blocks (view S e) start count) answer
  unfolding read_blocks
  read_blocks-Reads start count e v i =
      let (held, answer) = read_chunks_post start count e v i in
      rw (check_read-ok e.geometry start count v.sized i, read_blocks)
        (transport-Keeps S e _ v held.0 held.1, refl, finish_read-Reads start count e _ v i answer)

module _ {T : BackendTransport} where
  -- A read of no block, or of one outside the volume, is refused with `EINVAL` and changes nothing.
  pub read_blocks_refused :
      (start count : ℕ) (e : Engine T)
      → ¬ InRange e.geometry start count
      → (x : EngineError) × (read_blocks T start count e ≡ (err x, e)) × (errno x ≡ einval)
  unfolding read_blocks
  read_blocks_refused start count e n =
      let (x, h, k) = check_read-err e.geometry start count n in (x, ground arith, k)
