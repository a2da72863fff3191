-- ===== src/Engine/Coherence.antt =====
-- The operations together: a new engine satisfies the invariant, a read after a write answers with
-- the payload, and a disconnect flushes before it leaves.
use native.Mathlib.Nat.{div-add-mod', suc-mul, zero-mul}
use temporal_nbd.Prelude.{
  ℕ, ◌⊎◌, zero, suc, ◌+◌, ◌-◌, ◌*◌, ◌/◌, ◌<◌, ◌≡◌, refl, ◌∙◌, sym, ap, ap₂, subst, false, [], ◌++◌,
  arith, length, length-drop, drop, take-append-drop, nil_of_length, is_err, ok, err, Result-cases,
  inl, inr, if◌then◌else◌, leb, ltb, ◌&&◌,
}
use temporal_nbd.Errors.{EngineError, errno, eio}
use temporal_nbd.Geometry.{VolumeGeometry}
use temporal_nbd.Geometry.Laws.{IsSized}
use temporal_nbd.Transport.{BackendTransport, Bytes, Volume, blocks}
use temporal_nbd.Transport.Laws.{BlockStore}
use temporal_nbd.Engine.State.{EngineConfig, Engine, new}
use temporal_nbd.Engine.Flushing.{Clock, flush_with_deadline}
use temporal_nbd.Engine.Reading.{read_blocks}
use temporal_nbd.Engine.Operations.{write_blocks, flush, disconnect}
use temporal_nbd.Engine.View.{overlay, view, IsValid, Keeps, Keeps-trans, transport-Keeps}
use temporal_nbd.Engine.FlushLaws.{flush_with_deadline-Keeps}
use temporal_nbd.Engine.FlushResults.{flush_durable, flush_with_deadline-Settles, dirty_of_err}
use temporal_nbd.Engine.Chunks.{slice, slice_zero, slice-drop}
use temporal_nbd.Engine.WriteLaws.{Fits, write_blocks_stores}
use temporal_nbd.Engine.ReadLoop.{Reads, errno-map_transport}
use temporal_nbd.Engine.ReadLaws.{InRange, read_blocks-Reads}

module _ {T : BackendTransport} {block_size : ℕ} (S : BlockStore T block_size) where
  -- An engine on an opened volume satisfies the invariant, whatever mark is configured, and a
  -- client sees the volume.
  pub new-IsValid :
      (g : VolumeGeometry) (t : T.State) (config : EngineConfig)
      → IsSized g
      → g.block_size_bytes ≡ block_size
      → S.IsSound t
      → IsValid S (new T g t config)
        × ((lba : ℕ) → view S (new T g t config) lba ≡ S.contents t lba)
  new-IsValid g t config s b h = (
    record {
      block_eq = b;
      sized = s;
      sorted = tt;
      cached = tt;
      watermark_pos = ground arith;
      sound = h;
    },
    λ lba. refl,
  )

-- The slices of a payload, in order, are the payload.
blocks-slice :
    (size start n : ℕ) (payload : Bytes) (v : Volume)
    → length payload ≡ n * size
    → ((j : ℕ) → j < n → v (start + j) ≡ slice size j payload)
    → blocks v start n ≡ payload
blocks-slice size start zero payload v l h =
    sym (nil_of_length payload (omega (arith, zero-mul size)))
blocks-slice size start (suc n) payload v l h =
    ap₂ ◌++◌ (ap v (omega arith) ∙ h 0 (omega arith) ∙ slice_zero size payload) (
      blocks-slice size (suc start) n (drop size payload) v
        (omega (arith, length-drop size payload, suc-mul n size))
        (λ j p. ap v (omega arith) ∙ h (suc j) (omega arith) ∙ sym (slice-drop size j payload)))
    ∙ take-append-drop size payload

count_pos : (n size count : ℕ) → n ≡ count * size → 0 < n → 0 < count
count_pos n size zero e h = absurd (omega (arith, zero-mul size))
count_pos n size (suc count) e h = omega arith

inside_slice :
    (start count j size : ℕ) (payload old : Bytes)
    → j < count
    → (if leb start (start + j) && ltb (start + j) (start + count)
        then slice size (start + j - start) payload
        else old)
      ≡ slice size j payload
inside_slice start count j size payload old h =
    let index : start + j - start ≡ j = omega arith in rw index (ground arith)

module _ {T : BackendTransport} {block_size : ℕ} (S : BlockStore T block_size) (C : Clock T) where
  -- In a state that satisfies the invariant, a read of the range that was just written answers with
  -- the payload, also when the flush that the write forced has failed, or with the error of a
  -- request that the transport failed.
  pub read-write_blocks :
      (start : ℕ) (payload : Bytes) (e : Engine T)
      → IsValid S e
      → Fits e.geometry start payload
      → let count = length payload / e.geometry.block_size_bytes in
        Reads T payload (read_blocks T start count (write_blocks T C start payload e).1).0
  read-write_blocks start payload e v f =
      let size = e.geometry.block_size_bytes in
      let count = length payload / size in
      let e' = (write_blocks T C start payload e).1 in
      let stored = write_blocks_stores S C start payload e v f in
      let whole : length payload ≡ count * size =
        omega (arith, div-add-mod' (length payload) size, f.whole) in
      let range : InRange e'.geometry start count =
        subst (λ g. InRange g start count) (sym stored.1)
          (record {
            some_blocks = count_pos (length payload) size count whole f.some_bytes;
            inside = f.inside;
          }) in
      let reads = read_blocks-Reads S start count e' stored.0 range in
      subst (λ p. Reads T p (read_blocks T start count e').0)
        (blocks-slice size start count payload (view S e') whole (λ j p.
          stored.3 (start + j) ∙ inside_slice start count j size payload (view S e (start + j)) p))
        reads.2

  module _ (e : Engine T) (v : IsValid S e) where
    abbrev flushed : Engine T
    flushed = (flush T C e).1

    abbrev left : T.State
    left = (T.disconnect flushed.transport).1

    disconnect_state : (disconnect T C e).1 ≡ record flushed { transport = left }
    unfolding disconnect flush
    disconnect_state = ground arith

    -- In a state that satisfies the invariant, a disconnect keeps the invariant and what a client
    -- sees, however its parts end.
    pub disconnect-Keeps : Keeps S e (disconnect T C e).1
    unfolding flush
    disconnect-Keeps =
        let k = flush_with_deadline-Keeps S C e.config.flush_retry_deadline e v in
        rw disconnect_state (
          Keeps-trans S k (
            transport-Keeps S flushed left k.valid
              (S.disconnect-IsSound flushed.transport k.valid.sound)
              (λ lba. S.disconnect_keeps lba flushed.transport k.valid.sound)))

    flush_of_disconnect : (disconnect T C e).0 ≡ ok tt → (flush T C e).0 ≡ ok tt
    unfolding disconnect flush
    flush_of_disconnect h = ground arith

    -- A disconnect fails with an I/O error only.
    pub errno-disconnect : (x : EngineError) → (disconnect T C e).0 ≡ err x → errno x ≡ eio
    unfolding disconnect
    errno-disconnect x h =
        let deadline = e.config.flush_retry_deadline in
        let settled = flush_with_deadline-Settles C deadline e in
        elim (Result-cases (flush_with_deadline T C deadline e).0) [
          | inr (y, p) ↦ let k = dirty_of_err _ _ y settled p in ground (arith, k)
          | inl (u, p) ↦ elim (Result-cases (T.disconnect flushed.transport).0) [
            | inr (y, q) ↦ ground (arith, errno-map_transport y)
            | inl (w, q) ↦ ground arith
          ]
        ]

    -- A disconnect disconnects the transport in the state that its flush leaves, whether the flush
    -- failed or not, and where the flush failed it reports the error of the flush.
    pub disconnect_reports :
        let (answer, e') = disconnect T C e in
        (e'.transport ≡ left) × ((is_err (flush T C e).0 ≡ false) ⊎ (answer ≡ (flush T C e).0))
    unfolding disconnect flush
    disconnect_reports = (ground arith, ground arith)

    -- After a disconnect whose flush has succeeded, all blocks are stored.
    pub disconnect_stores :
        (flush T C e).0 ≡ ok tt
        → let e' = (disconnect T C e).1 in
          (e'.dirty ≡ []) × ((lba : ℕ) → S.contents e'.transport lba ≡ view S e lba)
    disconnect_stores h =
        let e' = (disconnect T C e).1 in
        let flushed_clean = (flush_durable S C e v h).1 in
        let clean : e'.dirty ≡ [] = rw disconnect_state flushed_clean in
        (
          clean,
          λ lba.
              subst (λ d. overlay d (S.contents e'.transport) lba ≡ view S e lba) clean
                (disconnect-Keeps.same_view lba),
        )

    -- In a state that satisfies the invariant, after a disconnect that succeeds the cache is empty
    -- and the volume behind the transport holds every block that a client saw.
    pub disconnect_durable :
        (disconnect T C e).0 ≡ ok tt
        → let e' = (disconnect T C e).1 in
          (e'.dirty ≡ []) × ((lba : ℕ) → S.contents e'.transport lba ≡ view S e lba)
    disconnect_durable h = disconnect_stores (flush_of_disconnect h)
