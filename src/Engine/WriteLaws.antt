-- ===== src/Engine/WriteLaws.antt =====
-- `write_blocks`: which writes are accepted, what a client sees after one however its flush ends,
-- and how many dirty blocks are left.
use native.Mathlib.Nat.{div-add-mod'}
use temporal_nbd.Prelude.{
  ℕ, ◌+◌, ◌-◌, ◌/◌, ◌%◌, ◌≤◌, ◌<◌, ◌≡◌, ◌∙◌, inl, inr, false, ◌&&◌, ltb, List, [], ◌∷◌, arith,
  length, is_empty, Result, ok, err, Result-cases, Bool-cases, if◌then◌else◌, leb,
}
use temporal_nbd.Errors.{EngineError, errno, eio, einval}
use temporal_nbd.Geometry.{VolumeGeometry}
use temporal_nbd.Geometry.Laws.{IsSized, total-le-u64_max}
use temporal_nbd.Transport.{BackendTransport, Bytes}
use temporal_nbd.Transport.Laws.{BlockStore}
use temporal_nbd.Engine.State.{Engine, DirtyCache}
use temporal_nbd.Engine.Flushing.{Clock, flush_with_deadline}
use temporal_nbd.Engine.Operations.{write_blocks, chunks_exact, check_write}
use temporal_nbd.Engine.View.{overlay_found, overlay-lookup, view, IsValid, Keeps, Keeps-refl}
use temporal_nbd.Engine.FlushLaws.{flush_with_deadline-Keeps}
use temporal_nbd.Engine.FlushResults.{Settles, flush_with_deadline-Settles}
use temporal_nbd.Engine.Chunks.{
  put_all, insert_chunks-eq, length-chunks_exact, slice, lookup-put_all, lookup-put_all_outside,
  put_all-IsSorted, put_all-IsCached,
}

-- The payload is a positive number of whole blocks that fit into the volume from `start` on.
pub record Fits (g : VolumeGeometry) (start : ℕ) (payload : Bytes) : Type 0 where
  pub some_bytes : 0 < length payload
  pub whole : length payload % g.block_size_bytes ≡ 0
  pub inside : start + length payload / g.block_size_bytes ≤ g.total_blocks

check_write-ok :
    (g : VolumeGeometry) (start : ℕ) (payload : Bytes)
    → IsSized g
    → Fits g start payload
    → check_write g start payload ≡ ok (length payload / g.block_size_bytes)
unfolding check_write
check_write-ok g start [] s f = absurd (omega arith)
check_write-ok g start (x ∷ xs) s f = ground (arith, total-le-u64_max g s)

Fits-of_ok :
    (g : VolumeGeometry) (start : ℕ) (payload : Bytes) {count : ℕ}
    → check_write g start payload ≡ ok count
    → Fits g start payload
unfolding check_write
Fits-of_ok g start [] h = cc
Fits-of_ok g start (x ∷ xs) h = ground arith

errno_of_err :
    (g : VolumeGeometry) (start : ℕ) (payload : Bytes) {x : EngineError}
    → check_write g start payload ≡ err x
    → errno x ≡ einval
unfolding check_write
errno_of_err g start [] h = ground arith
errno_of_err g start (x ∷ xs) h = ground arith

-- A write that does not fit is refused with `EINVAL`.
check_write-err :
    (g : VolumeGeometry) (start : ℕ) (payload : Bytes)
    → ¬ Fits g start payload
    → (x : EngineError) × (check_write g start payload ≡ err x) × (errno x ≡ einval)
check_write-err g start payload n = elim (Result-cases (check_write g start payload)) [
  | inl (count, h) ↦ absurd (n (Fits-of_ok g start payload h))
  | inr (x, h) ↦ (x, h, errno_of_err g start payload h)
]

module _ {T : BackendTransport} (C : Clock T) (start : ℕ) (payload : Bytes) (e : Engine T) where
  abbrev block_size : ℕ
  block_size = e.geometry.block_size_bytes

  -- The engine once the chunks are in its cache.
  abbrev pub buffered : Engine T
  buffered = record e {
    dirty = put_all start (chunks_exact (length payload / block_size) block_size payload) e.dirty;
  }

  pub write_blocks-eq :
      IsSized e.geometry
      → Fits e.geometry start payload
      → write_blocks T C start payload e ≡ (
          if leb e.config.dirty_high_watermark_blocks (length buffered.dirty)
          then flush_with_deadline T C e.config.flush_retry_deadline buffered
          else (ok tt, buffered))
  unfolding write_blocks
  write_blocks-eq s f = ground (
    arith,
    check_write-ok e.geometry start payload s f,
    insert_chunks-eq start 0 (chunks_exact (length payload / block_size) block_size payload) e.dirty
        {lba = start},
    length-chunks_exact (length payload / block_size) block_size payload,
    total-le-u64_max e.geometry s,
  )

-- How a write that fits ends, where `mark` is the high-water mark.
abbrev pub Bounded : ℕ → Result (Unit {0}) EngineError → DirtyCache → Type 0
Bounded mark (ok _) d = length d < mark
Bounded mark (err x) d = (errno x ≡ eio) × (is_empty d ≡ false)

Bounded-of_Settles :
    {mark : ℕ} (r : Result (Unit {0}) EngineError) (d : DirtyCache)
    → 0 < mark
    → Settles (λ x. x) r d
    → Bounded mark r d
Bounded-of_Settles (ok _) d h s = rw s h
Bounded-of_Settles (err x) d h s = s

module _ {T : BackendTransport} {block_size : ℕ} (S : BlockStore T block_size) (C : Clock T) where
  module _ (start : ℕ) (payload : Bytes) (e : Engine T) (v : IsValid S e)
      (f : Fits e.geometry start payload) where
    abbrev size : ℕ
    size = e.geometry.block_size_bytes

    abbrev count : ℕ
    count = length payload / size

    abbrev chunks : List Bytes
    chunks = chunks_exact count size payload

    abbrev buffered_dirty : DirtyCache
    buffered_dirty = put_all start chunks e.dirty

    buffered-IsValid : IsValid S (buffered C start payload e)
    buffered-IsValid = record {
      block_eq = v.block_eq;
      sized = v.sized;
      sorted = put_all-IsSorted start chunks e.dirty v.sorted;
      cached =
          put_all-IsCached e.geometry start count payload e.dirty f.inside
            (omega (arith, div-add-mod' (length payload) size, f.whole)) v.cached;
      watermark_pos = v.watermark_pos;
      sound = v.sound;
    }

    view-buffered :
        (lba : ℕ)
        → view S (buffered C start payload e) lba ≡ (
            if leb start lba && ltb lba (start + count)
            then slice size (lba - start) payload
            else view S e lba)
    view-buffered lba = elim (Bool-cases (leb start lba && ltb lba (start + count))) [
      | inl inside ↦ rw inside (
          overlay_found buffered_dirty (S.contents e.transport) lba
            (lookup-put_all lba start count size payload e.dirty (ground arith) (ground arith)))
      | inr outside ↦ rw outside (
          overlay-lookup buffered_dirty e.dirty (S.contents e.transport) lba (
            lookup-put_all_outside lba start chunks e.dirty
              (λ h. ground (arith, length-chunks_exact count size payload))))
    ]

    after_write-Keeps : Keeps S (buffered C start payload e) (write_blocks T C start payload e).1
    after_write-Keeps = rw (write_blocks-eq C start payload e v.sized f) (
        ground (
          arith,
          flush_with_deadline-Keeps S C e.config.flush_retry_deadline (buffered C start payload e)
              buffered-IsValid,
          Keeps-refl S (buffered C start payload e) buffered-IsValid,
        ))

    -- In a state that satisfies the invariant, after a write that fits, also one whose flush fails,
    -- the invariant holds and a client sees the payload's blocks at their addresses and every other
    -- block as before.
    pub write_blocks_stores :
        let e' = (write_blocks T C start payload e).1 in
        IsValid S e'
        × (e'.geometry ≡ e.geometry)
        × (e'.config ≡ e.config)
        × ((lba : ℕ)
            → view S e' lba ≡ (
                if leb start lba && ltb lba (start + count)
                then slice size (lba - start) payload
                else view S e lba))
    write_blocks_stores =
        let k = after_write-Keeps in
        (k.valid, k.same_geometry, k.same_config, λ lba. k.same_view lba ∙ view-buffered lba)

    -- In a state that satisfies the invariant, a write that fits succeeds with fewer dirty blocks
    -- than the mark, or fails with an I/O error of its flush and blocks still in the cache.
    pub write_blocks-Bounded :
        let (answer, e') = write_blocks T C start payload e in
        Bounded e.config.dirty_high_watermark_blocks answer e'.dirty
    write_blocks-Bounded =
        rw (write_blocks-eq C start payload e v.sized f)
          (elim (Bool-cases (leb e.config.dirty_high_watermark_blocks (length buffered_dirty))) [
            | inr below ↦ rw below (ground arith)
            | inl full ↦ rw full (
                Bounded-of_Settles _ _ v.watermark_pos (
                  flush_with_deadline-Settles C e.config.flush_retry_deadline
                    (buffered C start payload e)))
          ])

module _ {T : BackendTransport} (C : Clock T) where
  -- A write that does not fit is refused with `EINVAL` and changes nothing.
  pub write_blocks_refused :
      (start : ℕ) (payload : Bytes) (e : Engine T)
      → ¬ Fits e.geometry start payload
      → (x : EngineError) × (write_blocks T C start payload e ≡ (err x, e)) × (errno x ≡ einval)
  unfolding write_blocks
  write_blocks_refused start payload e n =
      let (x, h, k) = check_write-err e.geometry start payload n in (x, ground arith, k)
