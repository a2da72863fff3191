-- ===== src/Bridge/Loop.antt =====
-- The loop of the bridge: every exit disconnects the engine once, after the requests that were
-- taken from the queue, each of which gets one response.
use temporal_nbd.Prelude.{
  ℕ, suc, ◌≡◌, refl, ap, true, false, List, [], ◌∷◌, length, Result-cases, inl, inr,
}
use temporal_nbd.Transport.{Bytes}
use temporal_nbd.Engine.Operations.{BlockDeviceEngine}
use temporal_nbd.Bridge.{
  BridgeCommand, read, write, flush, disconnect, Event, arrived, cancelled, offset_len_to_lba,
  handle_request, engine_loop, run_engine_loop,
}

-- The requests that the loop answers before it ends: those that arrive before the cancellation, up
-- to the first disconnect.
abbrev pub answered : List Event → List BridgeCommand
answered [] = []
answered (cancelled ∷ events) = []
answered (arrived disconnect ∷ events) = disconnect ∷ []
answered (arrived (read o n) ∷ events) = read o n ∷ answered events
answered (arrived (write o b) ∷ events) = write o b ∷ answered events
answered (arrived flush ∷ events) = flush ∷ answered events

-- Of these, the ones before the disconnect.
abbrev pub before_disconnect : List BridgeCommand → List BridgeCommand
before_disconnect [] = []
before_disconnect (disconnect ∷ cs) = []
before_disconnect (read o n ∷ cs) = read o n ∷ before_disconnect cs
before_disconnect (write o b ∷ cs) = write o b ∷ before_disconnect cs
before_disconnect (flush ∷ cs) = flush ∷ before_disconnect cs

module _ (E : BlockDeviceEngine) (block_size : ℕ) where
  -- The engine after some requests.
  pub serve : List BridgeCommand → E.State → E.State
  serve [] s = s
  serve (c ∷ cs) s = serve cs (handle_request E block_size c s).2

  pub read_continues :
      (o n : ℕ) (s : E.State) → (handle_request E block_size (read o n) s).1 ≡ false
  unfolding handle_request
  read_continues o n s = elim (Result-cases (offset_len_to_lba o n block_size)) [
    | inl (x, h) ↦ rw (h, handle_request) refl
    | inr (x, h) ↦ rw (h, handle_request) refl
  ]

  pub write_continues :
      (o : ℕ) (b : Bytes) (s : E.State) → (handle_request E block_size (write o b) s).1 ≡ false
  unfolding handle_request
  write_continues o b s = elim (Result-cases (offset_len_to_lba o (length b) block_size)) [
    | inl (x, h) ↦ rw (h, handle_request) refl
    | inr (x, h) ↦ rw (h, handle_request) refl
  ]

  pub flush_continues : (s : E.State) → (handle_request E block_size flush s).1 ≡ false
  unfolding handle_request
  flush_continues s = refl

  pub disconnect_exits :
      (s : E.State)
      → ((handle_request E block_size disconnect s).1 ≡ true)
        × ((handle_request E block_size disconnect s).2 ≡ (E.disconnect s).1)
  unfolding handle_request
  disconnect_exits s = (refl, refl)

  -- Whatever the order of requests and cancellation, the loop leaves the engine as one disconnect
  -- does, after the requests before it; and it sends one response to each request that it took.
  pub run_engine_loop_disconnects :
      (events : List Event) (s : E.State)
      → let (responses, s') = run_engine_loop E block_size events s in
        (s' ≡ (E.disconnect (serve (before_disconnect (answered events)) s)).1)
        × (length responses ≡ length (answered events))
  unfolding run_engine_loop engine_loop serve
  run_engine_loop_disconnects [] s = (refl, refl)
  run_engine_loop_disconnects (cancelled ∷ events) s = (refl, refl)
  run_engine_loop_disconnects (arrived disconnect ∷ events) s =
      let (exits, leaves) = disconnect_exits s in rw (exits, leaves) (refl, refl)
  run_engine_loop_disconnects (arrived (read o n) ∷ events) s =
      let ih = run_engine_loop_disconnects events (handle_request E block_size (read o n) s).2 in
      rw (read_continues o n s) (ih.0, ap suc ih.1)
  run_engine_loop_disconnects (arrived (write o b) ∷ events) s =
      let ih = run_engine_loop_disconnects events (handle_request E block_size (write o b) s).2 in
      rw (write_continues o b s) (ih.0, ap suc ih.1)
  run_engine_loop_disconnects (arrived flush ∷ events) s =
      let ih = run_engine_loop_disconnects events (handle_request E block_size flush s).2 in
      rw (flush_continues s) (ih.0, ap suc ih.1)
