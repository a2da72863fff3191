-- ===== src/Bridge/Refinement.antt =====
-- `handle_request` over a caching engine takes the steps of the device that the bridge promises.
use mathlib.Core.Path.{fun_ext}
use temporal_nbd.Prelude.{
  ℕ, ◌/◌, ◌≡◌, refl, ◌∙◌, ap, true, false, Bool-cases, inl, inr, arith, Result, ok, err,
  Result-cases, length,
}
use temporal_nbd.Errors.{EngineError}
use temporal_nbd.Transport.{BackendTransport, Bytes, blocks}
use temporal_nbd.Transport.Laws.{BlockStore}
use temporal_nbd.Engine.State.{Engine}
use temporal_nbd.Engine.Flushing.{Clock}
use temporal_nbd.Engine.Reading.{read_blocks}
use temporal_nbd.Engine.Operations.{BlockDeviceEngine, caching_engine, write_blocks}
use temporal_nbd.Engine.Settled.{flush-IsAbsent, disconnect-IsAbsent, write_blocks-IsAbsent}
use temporal_nbd.Engine.View.{view, IsValid}
use temporal_nbd.Engine.FlushResults.{flush_durable, flush_loses_nothing, flush-Keeps}
use temporal_nbd.Engine.Coherence.{disconnect-Keeps, disconnect_durable, errno-disconnect}
use temporal_nbd.Engine.ReadLoop.{Reads, errno-ReadFailed}
use temporal_nbd.Engine.ReadLaws.{read_blocks-Reads, read_blocks-Holds, read_blocks_refused}
use temporal_nbd.Engine.WriteLaws.{
  Bounded, write_blocks_stores, write_blocks-Bounded, write_blocks_refused,
}
use temporal_nbd.Bridge.{
  BridgeCommand, read, write, flush, disconnect, BridgeResponse, response_ok, handle_request,
  answer_data, answer_done,
}
use temporal_nbd.Bridge.Acceptance.{accepted_blocks, refused_blocks, accepted-Fits, refused-Fits}
use temporal_nbd.Bridge.Represents.{is_pending, device_of, settled_at}
use temporal_nbd.Bridge.Spec.{
  Device, in_payload, Settled, accepts, put, failure, Step, read_done, read_failed, read_refused,
  write_done, write_failed, write_refused, flush_done, flush_failed, disconnect_done,
  disconnect_failed,
}

module _ {T : BackendTransport} {block_size : ℕ} (S : BlockStore T block_size) (C : Clock T)
    (e : Engine T) (v : IsValid S e) where
  abbrev E : BlockDeviceEngine
  E = caching_engine T C

  abbrev size : ℕ
  size = e.geometry.block_size_bytes

  -- A handled request: the invariant, the size of the volume, and a step of the device under which
  -- settled blocks stay.
  pub record Handled (command : BridgeCommand) (handled : BridgeResponse × Engine T) : Type 0 where
    pub valid : IsValid S handled.1
    pub same_geometry : handled.1.geometry ≡ e.geometry
    pub step : Step e.geometry (device_of S e) (device_of S handled.1) command handled.0
    pub settled : Settled e.geometry (device_of S e) (device_of S handled.1) command

  read-Step :
      (offset len : ℕ) (answer : Result Bytes EngineError) (d' : Device)
      → accepts e.geometry offset len ≡ true
      → d'.seen ≡ view S e
      → d'.stored ≡ S.contents e.transport
      → Reads T (blocks (view S e) (offset / size) (len / size)) answer
      → Step e.geometry (device_of S e) d' (read offset len) (answer_data answer)
  read-Step offset len (ok bytes) d' a h s r = read_done a h s (ap response_ok r)
  read-Step offset len (err x) d' a h s r = read_failed a h s (ap failure (errno-ReadFailed T x r))

  read_accepted :
      (offset len : ℕ)
      → accepts e.geometry offset len ≡ true
      → let (answer, e') = read_blocks T (offset / size) (len / size) e in
        Handled (read offset len) (answer_data answer, e')
  read_accepted offset len a =
      let (translated, range) = accepted_blocks e.geometry v.sized offset len a in
      let (keeps, same_dirty, reads) = read_blocks-Reads S (offset / size) (len / size) e v range in
      let stored = (read_blocks-Holds S (offset / size) (len / size) e v range).1 in
      record {
        valid = keeps.valid;
        same_geometry = keeps.same_geometry;
        step = read-Step offset len _ _ a (fun_ext keeps.same_view) (fun_ext stored) reads;
        settled = λ lba w p.
            settled_at S e (read_blocks T (offset / size) (len / size) e).1 lba
              (λ a. rw same_dirty a) (keeps.same_view lba) p;
      }

  refused :
      {command : BridgeCommand} {r : BridgeResponse}
      → Step e.geometry (device_of S e) (device_of S e) command r
      → Handled command (r, e)
  refused s = record { valid = v; same_geometry = refl; step = s; settled = λ lba w p. (p, refl) }

  abbrev pub handled : BridgeCommand → BridgeResponse × Engine T
  handled command = let (r, exits, e') = handle_request E size command e in (r, e')

  read_handled : (offset len : ℕ) → Handled (read offset len) (handled (read offset len))
  unfolding handle_request
  read_handled offset len = elim (Bool-cases (accepts e.geometry offset len)) [
    | inl a ↦
        rw ((accepted_blocks e.geometry v.sized offset len a).0, handle_request)
          (read_accepted offset len a)
    | inr a ↦ elim (refused_blocks e.geometry v.sized offset len a) [
      | inl (x, h, k) ↦ rw (h, handle_request) (refused (read_refused a refl (ap failure k)))
      | inr (h, w, n) ↦
          let (x, p, k) = read_blocks_refused (offset / size) (len / size) e n in
          rw (h, p, handle_request) (refused (read_refused a refl (ap failure k)))
    ]
  ]

  write-Step :
      (offset : ℕ) (bytes : Bytes) (mark : ℕ) (answer : Result (Unit {0}) EngineError)
      (e' : Engine T)
      → accepts e.geometry offset (length bytes) ≡ true
      → view S e' ≡ put size (offset / size) bytes (view S e)
      → Bounded mark answer e'.dirty
      → Step e.geometry (device_of S e) (device_of S e') (write offset bytes) (answer_done answer)
  write-Step offset bytes mark (ok _) e' a h b = write_done a h refl
  write-Step offset bytes mark (err x) e' a h b = write_failed a h (ap failure b.0)

  write_accepted :
      (offset : ℕ) (bytes : Bytes)
      → accepts e.geometry offset (length bytes) ≡ true
      → let (answer, e') = write_blocks T C (offset / size) bytes e in
        Handled (write offset bytes) (answer_done answer, e')
  write_accepted offset bytes a =
      let fits = accepted-Fits e.geometry v.sized offset bytes a in
      let stores = write_blocks_stores S C (offset / size) bytes e v fits in
      record {
        valid = stores.0;
        same_geometry = stores.1;
        step =
            write-Step offset bytes _ _ (write_blocks T C (offset / size) bytes e).1 a
              (fun_ext stores.3) (write_blocks-Bounded S C (offset / size) bytes e v fits);
        settled = λ lba w p.
            let outside : in_payload size (offset / size) (length bytes) lba ≡ false =
              ground (arith, a, w) in
            settled_at S e (write_blocks T C (offset / size) bytes e).1 lba
              (λ b. write_blocks-IsAbsent lba C e b (offset / size) bytes v.sized fits outside)
              (stores.3 lba ∙ rw outside refl) p;
      }

  write_handled :
      (offset : ℕ) (bytes : Bytes) → Handled (write offset bytes) (handled (write offset bytes))
  unfolding handle_request
  write_handled offset bytes = elim (Bool-cases (accepts e.geometry offset (length bytes))) [
    | inl a ↦
        rw ((accepted_blocks e.geometry v.sized offset (length bytes) a).0, handle_request)
          (write_accepted offset bytes a)
    | inr a ↦ elim (refused_blocks e.geometry v.sized offset (length bytes) a) [
      | inl (x, h, k) ↦ rw (h, handle_request) (refused (write_refused a refl (ap failure k)))
      | inr (h, w, n) ↦
          let (x, p, k) =
            write_blocks_refused C (offset / size) bytes e
              (refused-Fits e.geometry v.sized offset bytes w n) in
          rw (h, p, handle_request) (refused (write_refused a refl (ap failure k)))
    ]
  ]

  flush_handled : Handled flush (handled flush)
  unfolding handle_request
  flush_handled =
      let keeps = flush-Keeps S C e v in
      record {
        valid = keeps.valid;
        same_geometry = keeps.same_geometry;
        step = elim (Result-cases (E.flush e).0) [
          | inl (u, h) ↦
              let durable = flush_durable S C e v h in
              flush_done (fun_ext keeps.same_view) (fun_ext durable.2)
                (λ lba. rw (durable.1, is_pending) refl) (rw h refl)
          | inr (x, h) ↦
              let lost = flush_loses_nothing S C e x v h in
              flush_failed (fun_ext lost.3) (rw h (ap failure lost.0))
        ];
        settled = λ lba w p.
            settled_at S e (E.flush e).1 lba (flush-IsAbsent lba C e) (keeps.same_view lba) p;
      }

  disconnect_handled : Handled disconnect (handled disconnect)
  unfolding handle_request
  disconnect_handled =
      let keeps = disconnect-Keeps S C e v in
      record {
        valid = keeps.valid;
        same_geometry = keeps.same_geometry;
        step = elim (Result-cases (E.disconnect e).0) [
          | inl (u, h) ↦
              let durable = disconnect_durable S C e v h in
              disconnect_done (fun_ext keeps.same_view) (fun_ext durable.1)
                (λ lba. rw (durable.0, is_pending) refl) (rw h refl)
          | inr (x, h) ↦
              disconnect_failed (fun_ext keeps.same_view)
                (rw h (ap failure (errno-disconnect S C e v x h)))
        ];
        settled = λ lba w p.
            settled_at S e (E.disconnect e).1 lba (disconnect-IsAbsent lba C e)
              (keeps.same_view lba) p;
      }

  -- In a state that satisfies the invariant, the engine behind the bridge handles every request as
  -- the device does that the bridge promises: the response and what it does to the blocks that a
  -- client sees and to those that the volume holds are a step of the device, whatever the transport
  -- does. The invariant holds again and the size of the volume stays.
  pub handle_request_refines : (command : BridgeCommand) → Handled command (handled command)
  handle_request_refines (read offset len) = read_handled offset len
  handle_request_refines (write offset bytes) = write_handled offset bytes
  handle_request_refines flush = flush_handled
  handle_request_refines disconnect = disconnect_handled
