-- ===== src/Nbd/Farewell.antt =====
-- The end of a conversation: the client closes or sends a disconnect, and the engine is disconnected
-- once.
use temporal_nbd.Prelude.{ℕ, ◌≡◌, refl, sym, ap, subst, ◌∙◌, false, ◌++◌, String, ok, some}
use temporal_nbd.Geometry.{VolumeGeometry}
use temporal_nbd.Transport.{BackendTransport, Bytes}
use temporal_nbd.Transport.Laws.{BlockStore}
use temporal_nbd.Engine.Flushing.{Clock}
use temporal_nbd.Engine.Operations.{caching_engine}
use temporal_nbd.Bridge.{BridgeResponse, disconnect, handle_request}
use temporal_nbd.Bridge.Queue.{request}
use temporal_nbd.Bridge.Spec.{Step}
use temporal_nbd.Bridge.Represents.{device_of}
use temporal_nbd.Bridge.Runs.{handle_request_served}
use temporal_nbd.Nbd.Wire.{RequestHeader, IoError, nbd_cmd_disc, read_request_header}
use temporal_nbd.Nbd.WireLaws.{IsHeader, request_bytes, read_request_header-request_bytes}
use temporal_nbd.Nbd.Server.{Flow, stop, Setting, Server, ask, serve_request, serve_round}
use temporal_nbd.Nbd.Exchange.{command_code, Farewell, closing, leaving}
use temporal_nbd.Nbd.Requests.{over_engine, IsReady}
use temporal_nbd.Nbd.Rounds.{undisturbed, round_stops, drained, drained-IsReady}

module _ {T : BackendTransport} {block_size : ℕ} (S : BlockStore T block_size) (K : Clock T)
    (g : VolumeGeometry) (closed dropped : String) (show_io : IoError → String) where
  abbrev C : Setting
  C = over_engine S K g closed dropped show_io

  abbrev Ready : Server C → Type 0
  Ready = IsReady S K g closed dropped show_io

  same_stream : (s : Server C) → (ask C false disconnect s).1.stream ≡ s.stream
  unfolding ask
  same_stream s = refl

  ask_disconnect :
      (s : Server C)
      → Ready s
      → (ask C false disconnect s).1.queue.engine
        ≡ (handle_request (caching_engine T K) g.block_size_bytes disconnect s.queue.engine).2
  unfolding ask request
  ask_disconnect s r = rw r.running refl

  last-Step :
      (s : Server C)
      → Ready s
      → (r : BridgeResponse) × Step g
          (device_of S s.queue.engine)
          (device_of S (ask C false disconnect s).1.queue.engine)
          disconnect
          r
  last-Step s r =
      let handled = handle_request_served S K g disconnect s.queue.engine r.valid r.same_geometry in
      (
        (handle_request (caching_engine T K) g.block_size_bytes disconnect s.queue.engine).0,
        rw (ask_disconnect s r) handled.2,
      )

  -- From the server that the client leaves to the end of the loop: the loop stops, nothing is
  -- written, and after the disconnect that follows the device has taken the step of one disconnect.
  pub record Left (s : Server C) (out : Flow × Server C) : Type 0 where
    pub stops : out.0 ≡ stop
    pub same_outgoing : (ask C false disconnect out.1).1.stream.outgoing ≡ s.stream.outgoing
    pub response : BridgeResponse
    pub step :
        Step g
          (device_of S s.queue.engine)
          (device_of S (ask C false disconnect out.1).1.queue.engine)
          disconnect
          response

  closed_queue :
      (s : Server C)
      → s.queue.running ≡ false
      → (ask C false disconnect s).1.queue.engine ≡ s.queue.engine
  unfolding ask request
  closed_queue s h = rw h refl

  stops_running : (s : Server C) → Ready s → (ask C false disconnect s).1.queue.running ≡ false
  unfolding ask request handle_request
  stops_running s r = rw r.running refl

  disc_round :
      (s : Server C) (h : RequestHeader) (rest : Bytes)
      → IsHeader h
      → command_code h ≡ nbd_cmd_disc
      → s.stream.incoming ≡ request_bytes h ++ rest
      → serve_round C undisturbed s ≡ (
        stop,
        (ask C false disconnect (record s { stream = record s.stream { incoming = rest } })).1,
      )
  unfolding serve_round serve_request
  disc_round s h rest v c u =
      let exact = read_request_header-request_bytes h rest s.stream v u in
      let header : (read_request_header s.stream).0 ≡ ok (some h) = ap (λ p. p.0) exact in
      let left : (read_request_header s.stream).1 ≡ record s.stream { incoming = rest } =
        ap (λ p. p.1) exact in
      rw (header, left, serve_round) (rw c refl)

  pub Farewell-Left :
      (s : Server C)
      → Ready s
      → (farewell : Bytes) → Farewell farewell
      → s.stream.incoming ≡ farewell
      → Left s (serve_round C undisturbed s)
  Farewell-Left s r farewell (closing e) u =
      let (response, step) =
        last-Step (drained S K g closed dropped show_io s)
          (drained-IsReady S K g closed dropped show_io s r) in
      subst (Left s) (sym (round_stops S K g closed dropped show_io s r (u ∙ e))) (record {
        stops = refl;
        same_outgoing = ap (λ t. t.outgoing) (same_stream (drained S K g closed dropped show_io s));
        response = response;
        step = step;
      })
  Farewell-Left s r farewell (leaving h rest v c e) u =
      let asking : Server C = record s { stream = record s.stream { incoming = rest } } in
      let ready : Ready asking = record {
        valid = r.valid;
        same_geometry = r.same_geometry;
        running = r.running;
        writable = r.writable;
        closes = r.closes;
      } in
      let asked : Server C = (ask C false disconnect asking).1 in
      let (response, step) = last-Step asking ready in
      subst (Left s) (sym (disc_round s h rest v c (u ∙ e))) (record {
        stops = refl;
        same_outgoing = ap (λ t. t.outgoing) (same_stream asked ∙ same_stream asking);
        response = response;
        step =
            subst (λ x. Step g (device_of S s.queue.engine) (device_of S x) disconnect response)
              (sym (closed_queue asked (stops_running asking ready))) step;
      })

  -- The loop ends as its last round does.
  pub Left-of_loop : (s : Server C) (out : Flow × Server C) → Left s out → Left s (stop, out.1)
  Left-of_loop s out l = record {
    stops = refl;
    same_outgoing = l.same_outgoing;
    response = l.response;
    step = l.step;
  }
