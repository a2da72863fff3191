-- ===== src/Bridge/Durability.antt =====
-- What a flush has stored stays stored, through the loop of the bridge and its end.
use temporal_nbd.Prelude.{
  ℕ, ◌≡◌, refl, ◌∙◌, sym, subst, false, Bool-cases, inl, inr, none, ok, All, List,
}
use temporal_nbd.BTree.{lookup}
use temporal_nbd.Geometry.{VolumeGeometry}
use temporal_nbd.Transport.{BackendTransport}
use temporal_nbd.Transport.Laws.{BlockStore}
use temporal_nbd.Engine.State.{Engine}
use temporal_nbd.Engine.Flushing.{Clock}
use temporal_nbd.Engine.Operations.{caching_engine}
use temporal_nbd.Engine.Settled.{bare, contents-IsAbsent, disconnect-IsAbsent}
use temporal_nbd.Engine.FlushResults.{flush-Keeps, flush_durable}
use temporal_nbd.Engine.View.{view, IsValid}
use temporal_nbd.Engine.Coherence.{disconnect-Keeps}
use temporal_nbd.Bridge.{Event, engine_loop, run_engine_loop}
use temporal_nbd.Bridge.Loop.{answered}
use temporal_nbd.Bridge.Spec.{Run-settled, writes_to}
use temporal_nbd.Bridge.Runs.{engine_loop_refines}
use temporal_nbd.Bridge.Represents.{pending_of_absent, absent_of_pending}

module _ {T : BackendTransport} {block_size : ℕ} (S : BlockStore T block_size) (C : Clock T)
    (events : List Event) (e : Engine T) (v : IsValid S e) where
  abbrev g : VolumeGeometry
  g = e.geometry

  abbrev left : Engine T
  left = (engine_loop (caching_engine T C) g.block_size_bytes events e).2

  -- A block that is not in the cache, at an address that no accepted write among the answered
  -- requests is to: it is what the volume holds after the loop, before its last disconnect and after.
  pub settled_stays :
      (lba : ℕ)
      → lookup lba e.dirty ≡ none
      → All (λ c. writes_to g lba c ≡ false) (answered events)
      → let e' = (run_engine_loop (caching_engine T C) g.block_size_bytes events e).1 in
        (S.contents left.transport lba ≡ view S e lba)
        × (S.contents e'.transport lba ≡ view S e lba)
  unfolding run_engine_loop
  settled_stays lba absent w =
      let (pending, stored) =
        Run-settled lba (engine_loop_refines S C events e v).2 w
          (pending_of_absent lba e.dirty absent) in
      let absent_left = absent_of_pending lba left.dirty pending in
      let here : S.contents left.transport lba ≡ view S e lba =
        stored ∙ sym (bare S e lba absent) in
      let kept = disconnect-Keeps S C left (engine_loop_refines S C events e v).0 in
      let there : S.contents ((caching_engine T C).disconnect left).1.transport lba ≡ view S e lba =
        contents-IsAbsent S left ((caching_engine T C).disconnect left).1 lba absent_left
          (disconnect-IsAbsent lba C left absent_left) (kept.same_view lba)
        ∙ here in
      elim (Bool-cases (engine_loop (caching_engine T C) g.block_size_bytes events e).1) [
        | inl exited ↦ rw exited (here, here)
        | inr going ↦ rw going (here, there)
      ]

module _ {T : BackendTransport} {block_size : ℕ} (S : BlockStore T block_size) (C : Clock T)
    (e : Engine T) (v : IsValid S e) where
  abbrev flushed : Engine T
  flushed = ((caching_engine T C).flush e).1

  -- What a successful flush has stored survives. In a state that satisfies the invariant, after a
  -- flush that succeeds and then any events at all, also failures of the transport, the volume holds
  -- at every address what a client saw there at the flush, as long as no accepted write to the
  -- address is among the requests that were answered since: both where the loop stands and after
  -- the disconnect with which it ends.
  pub flush_survives :
      (events : List Event) (lba : ℕ)
      → ((caching_engine T C).flush e).0 ≡ ok tt
      → All (λ c. writes_to e.geometry lba c ≡ false) (answered events)
      → let size = e.geometry.block_size_bytes in
        let (responses, exited, standing) = engine_loop (caching_engine T C) size events flushed in
        let (responses', after) = run_engine_loop (caching_engine T C) size events flushed in
        (S.contents standing.transport lba ≡ view S e lba)
        × (S.contents after.transport lba ≡ view S e lba)
  flush_survives events lba h w =
      let kept = flush-Keeps S C e v in
      let clean = (flush_durable S C e v h).1 in
      let stays =
        subst
          (λ k.
            let (responses, exited, standing) =
              engine_loop (caching_engine T C) k.block_size_bytes events flushed in
            let (responses', after) =
              run_engine_loop (caching_engine T C) k.block_size_bytes events flushed in
            All (λ c. writes_to k lba c ≡ false) (answered events)
            → (S.contents standing.transport lba ≡ view S flushed lba)
              × (S.contents after.transport lba ≡ view S flushed lba))
          kept.same_geometry
          (settled_stays S C events flushed kept.valid lba (rw (clean, lookup) refl)) w in
      (stays.0 ∙ kept.same_view lba, stays.1 ∙ kept.same_view lba)
