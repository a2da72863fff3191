-- ===== src/Bridge/Runs.antt =====
-- The loop of the bridge over a caching engine: the requests that it answers, with its responses,
-- are a run of the device, and the volume behind the transport ends up with their effects.
use temporal_nbd.Prelude.{
  ℕ, ◌≡◌, refl, ◌∙◌, sym, ap, subst, Bool-cases, inl, inr, none, List, [], ◌∷◌,
}
use temporal_nbd.BTree.{lookup}
use temporal_nbd.Geometry.{VolumeGeometry}
use temporal_nbd.Transport.{BackendTransport}
use temporal_nbd.Transport.Laws.{BlockStore}
use temporal_nbd.Engine.State.{Engine}
use temporal_nbd.Engine.Flushing.{Clock}
use temporal_nbd.Engine.Operations.{BlockDeviceEngine, caching_engine}
use temporal_nbd.Engine.Settled.{bare}
use temporal_nbd.Engine.View.{view, IsValid}
use temporal_nbd.Engine.Coherence.{disconnect-Keeps}
use temporal_nbd.Bridge.{
  BridgeCommand, read, write, flush, disconnect, BridgeResponse, Event, arrived, cancelled,
  handle_request, engine_loop, run_engine_loop,
}
use temporal_nbd.Bridge.Loop.{
  answered, read_continues, write_continues, flush_continues, disconnect_exits,
}
use temporal_nbd.Bridge.Spec.{Step, Settled, Run, here, next, effects, Run-effects}
use temporal_nbd.Bridge.Represents.{device_of}
use temporal_nbd.Bridge.Refinement.{handle_request_refines}

module _ {T : BackendTransport} {block_size : ℕ} (S : BlockStore T block_size)
    (g : VolumeGeometry) where
  -- The events of the loop, from one engine to another: the invariant and the size stay, and the
  -- answered requests are a run of the device.
  abbrev pub Ran : Engine T → List Event → List BridgeResponse → Engine T → Type 0
  Ran e events responses e' =
      IsValid S e'
      × (e'.geometry ≡ g)
      × Run g (device_of S e) (device_of S e') (answered events) responses

module _ {T : BackendTransport} {block_size : ℕ} (S : BlockStore T block_size) (C : Clock T)
    (g : VolumeGeometry) where
  abbrev E : BlockDeviceEngine
  E = caching_engine T C

  pub handle_request_served :
      (command : BridgeCommand) (e : Engine T)
      → IsValid S e
      → e.geometry ≡ g
      → let (r, exits, e') = handle_request E g.block_size_bytes command e in
        IsValid S e'
        × (e'.geometry ≡ g)
        × Step g (device_of S e) (device_of S e') command r
        × Settled g (device_of S e) (device_of S e') command
  handle_request_served command e v h =
      let handled = handle_request_refines S C e v command in
      subst
        (λ k.
          let (r, exits, e') = handle_request E k.block_size_bytes command e in
          IsValid S e'
          × (e'.geometry ≡ k)
          × Step k (device_of S e) (device_of S e') command r
          × Settled k (device_of S e) (device_of S e') command)
        h (handled.valid, handled.same_geometry, handled.step, handled.settled)

  engine_loop-Ran :
      (events : List Event) (e : Engine T)
      → IsValid S e
      → e.geometry ≡ g
      → let (responses, exited, e') = engine_loop E g.block_size_bytes events e in
        Ran S g e events responses e'
  unfolding engine_loop
  engine_loop-Ran [] e v h = (v, h, here)
  engine_loop-Ran (cancelled ∷ events) e v h = (v, h, here)
  engine_loop-Ran (arrived disconnect ∷ events) e v h =
      let served = handle_request_served disconnect e v h in
      rw ((disconnect_exits E g.block_size_bytes e).0)
        (served.0, served.1, next served.2 served.3 here)
  engine_loop-Ran (arrived (read o n) ∷ events) e v h =
      let served = handle_request_served (read o n) e v h in
      let (valid, same, run) = engine_loop-Ran events _ served.0 served.1 in
      rw (read_continues E g.block_size_bytes o n e) (valid, same, next served.2 served.3 run)
  engine_loop-Ran (arrived (write o b) ∷ events) e v h =
      let served = handle_request_served (write o b) e v h in
      let (valid, same, run) = engine_loop-Ran events _ served.0 served.1 in
      rw (write_continues E g.block_size_bytes o b e) (valid, same, next served.2 served.3 run)
  engine_loop-Ran (arrived flush ∷ events) e v h =
      let served = handle_request_served flush e v h in
      let (valid, same, run) = engine_loop-Ran events _ served.0 served.1 in
      rw (flush_continues E g.block_size_bytes e) (valid, same, next served.2 served.3 run)

module _ {T : BackendTransport} {block_size : ℕ} (S : BlockStore T block_size) (C : Clock T)
    (events : List Event) (e : Engine T) (v : IsValid S e) where
  abbrev g : VolumeGeometry
  g = e.geometry

  -- Over an engine in a state that satisfies the invariant, the requests that the loop answers, up
  -- to the first disconnect or the cancellation, are with their responses a run of the device that
  -- the bridge promises, whatever the transport does.
  pub engine_loop_refines :
      let (responses, exited, e') = engine_loop (caching_engine T C) g.block_size_bytes events e in
      Ran S g e events responses e'
  engine_loop_refines = engine_loop-Ran S C g events e v refl

  abbrev left : Engine T
  left = (engine_loop (caching_engine T C) g.block_size_bytes events e).2

  left_sees : (lba : ℕ) → view S left lba ≡ effects g (answered events) (view S e) lba
  left_sees lba = ap (λ u. u lba) (Run-effects engine_loop_refines.2)

  ended :
      (e' : Engine T)
      → ((lba : ℕ) → view S e' lba ≡ effects g (answered events) (view S e) lba)
      → (lba : ℕ) → lookup lba e'.dirty ≡ none
      → S.contents e'.transport lba ≡ effects g (answered events) (view S e) lba
  ended e' sees lba absent = sym (bare S e' lba absent) ∙ sees lba

  -- Over an engine in a state that satisfies the invariant, after the loop has ended with its
  -- disconnect, however the transport failed, a client would see the effects of exactly the accepted
  -- writes among the answered requests, and the volume behind the transport holds the effects at
  -- every address whose block is not left in the cache.
  pub run_engine_loop-effects :
      let (responses, e') = run_engine_loop (caching_engine T C) g.block_size_bytes events e in
      IsValid S e'
      × ((lba : ℕ) → view S e' lba ≡ effects g (answered events) (view S e) lba)
      × ((lba : ℕ)
          → lookup lba e'.dirty ≡ none
          → S.contents e'.transport lba ≡ effects g (answered events) (view S e) lba)
  unfolding run_engine_loop
  run_engine_loop-effects =
      let kept = disconnect-Keeps S C left engine_loop_refines.0 in
      elim (Bool-cases (engine_loop (caching_engine T C) g.block_size_bytes events e).1) [
        | inl exited ↦ rw exited (engine_loop_refines.0, left_sees, ended left left_sees)
        | inr going ↦
            let sees = λ (lba : ℕ). kept.same_view lba ∙ left_sees lba in
            rw going (kept.valid, sees, ended ((caching_engine T C).disconnect left).1 sees)
      ]
