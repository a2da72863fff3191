-- ===== src/Nbd/Interruptions.antt =====
-- What a client may rely on when `serve_blocking` is interrupted at any time.
use temporal_nbd.Prelude.{ℕ, ◌≡◌, sym, ap, ◌∙◌, none, String}
use temporal_nbd.BTree.{lookup}
use temporal_nbd.Geometry.{VolumeGeometry}
use temporal_nbd.Transport.{BackendTransport, Bytes}
use temporal_nbd.Transport.Laws.{BlockStore}
use temporal_nbd.Engine.State.{Engine}
use temporal_nbd.Engine.Flushing.{Clock}
use temporal_nbd.Engine.Operations.{caching_engine}
use temporal_nbd.Engine.View.{view, IsValid}
use temporal_nbd.Engine.Contract.{Respects}
use temporal_nbd.Engine.Settled.{bare}
use temporal_nbd.Engine.Coherence.{disconnect-Keeps}
use temporal_nbd.Nbd.Wire.{IoError}
use temporal_nbd.Nbd.Server.{Setting, Server}
use temporal_nbd.Nbd.Requests.{over_engine}
use temporal_nbd.Nbd.Interrupted.{Holds}

abbrev pub anything-Respects : {T : BackendTransport} (total : ℕ) → Respects T total (λ _. Unit)
anything-Respects total = record {
  reads = λ lba count s p q r h. tt;
  writes = λ ws s b h. tt;
  leaves = λ s h. tt;
}

module _ {T : BackendTransport} {block_size : ℕ} (S : BlockStore T block_size) (K : Clock T)
    (g : VolumeGeometry) {P : T.State → Type 0} (R : Respects T g.total_blocks P) where
  -- An engine that was disconnected keeps what a client of it saw, and the volume has each block of
  -- it that is not left in the cache.
  pub disconnected-Holds :
      {v : ℕ → Bytes} (e e' : Engine T)
      → Holds S K g R v e
      → e' ≡ ((caching_engine T K).disconnect e).1
      → IsValid S e'
        × ((lba : ℕ) → view S e' lba ≡ v lba)
        × ((lba : ℕ) → lookup lba e'.dirty ≡ none → S.contents e'.transport lba ≡ v lba)
  disconnected-Holds e e' h last =
      let kept = disconnect-Keeps S K e h.valid in
      let sees = λ (lba : ℕ). kept.same_view lba ∙ ap (λ u. u lba) h.sees in
      rw last (
        kept.valid,
        sees,
        λ lba absent. sym (bare S ((caching_engine T K).disconnect e).1 lba absent) ∙ sees lba,
      )

module _ {T : BackendTransport} {block_size : ℕ} (S : BlockStore T block_size) (K : Clock T)
    (g : VolumeGeometry) (closed dropped : String) (show_io : IoError → String) where
  abbrev C : Setting
  C = over_engine S K g closed dropped show_io
