-- ===== src/Nbd/Requests.antt =====
-- One request of a client over a caching engine: the loop of `serve_blocking` reads exactly its
-- bytes, takes the step of the device that it asks for and writes exactly its reply.
use temporal_nbd.Prelude.{ℕ, pos, ◌≡◌, refl, ap, ◌∙◌, true, false, not, [], ◌++◌, String}
use temporal_nbd.Geometry.{VolumeGeometry}
use temporal_nbd.Transport.{BackendTransport, Bytes}
use temporal_nbd.Transport.Laws.{BlockStore}
use temporal_nbd.Engine.Flushing.{Clock}
use temporal_nbd.Engine.Operations.{caching_engine}
use temporal_nbd.Engine.View.{IsValid}
use temporal_nbd.Bridge.{BridgeCommand, BridgeResponse, handle_request}
use temporal_nbd.Bridge.Queue.{request}
use temporal_nbd.Bridge.Spec.{Step, Settled, failure}
use temporal_nbd.Bridge.Represents.{device_of}
use temporal_nbd.Bridge.Runs.{handle_request_served}
use temporal_nbd.Nbd.Wire.{IoError, unexpected_eof, reply_header}
use temporal_nbd.Nbd.WireLaws.{write_reply-outgoing}
use temporal_nbd.Nbd.Server.{Flow, continue, Setting, Server, ask, reply}
use temporal_nbd.Nbd.Exchange.{NbdRequest, Exchange, reply_bytes}

module _ {T : BackendTransport} {block_size : ℕ} (S : BlockStore T block_size) (K : Clock T)
    (g : VolumeGeometry) (closed dropped : String) (show_io : IoError → String) where
  abbrev pub over_engine : Setting
  over_engine = record {
    E = caching_engine T K;
    geometry = g;
    closed = closed;
    dropped = dropped;
    show_io = show_io;
  }

  -- The server between requests: the bridge runs, the socket takes all writes and is closed after
  -- what is unread, and the engine is in a state that satisfies the invariant, for this volume.
  pub record IsReady (s : Server over_engine) : Type 0 where
    pub valid : IsValid S s.queue.engine
    pub same_geometry : s.queue.engine.geometry ≡ g
    pub running : s.queue.running ≡ true
    pub writable : s.stream.write_errors ≡ []
    pub closes : s.stream.ending ≡ unexpected_eof

  -- After a request: the next round, the bytes that follow still unread, one reply more, and the
  -- exchange over the device.
  pub record Served (q : NbdRequest) (rest : Bytes) (s : Server over_engine)
      (out : Flow × Server over_engine) : Type 0 where
    pub goes_on : out.0 ≡ continue
    pub ready : IsReady out.1
    pub unread : out.1.stream.incoming ≡ rest
    pub reply_sent : Bytes
    pub outgoing : out.1.stream.outgoing ≡ s.stream.outgoing ++ reply_sent
    pub exchange :
        Exchange g (device_of S s.queue.engine) (device_of S out.1.queue.engine) q reply_sent

  abbrev replied : Bytes → ℕ → Bytes → Server over_engine → Server over_engine
  replied handle e payload s = record s {
    stream = record s.stream {
      outgoing = s.stream.outgoing ++ (reply_header handle (pos e) ++ payload);
    };
  }

  reply-replied :
      (failure : String) (handle : Bytes) (e : ℕ) (payload : Bytes) (s : Server over_engine)
      → s.stream.write_errors ≡ []
      → reply over_engine failure handle e payload s ≡ (continue, replied handle e payload s)
  unfolding reply
  reply-replied failure handle e payload s w =
      let exact = write_reply-outgoing handle (pos e) payload s.stream w in
      rw (ap (λ p. p.0) exact, reply) (ap (λ p. (continue, record s { stream = p.1 })) exact)

  module _ (q : NbdRequest) (rest : Bytes) (s : Server over_engine) (r : IsReady s)
      (u : s.stream.incoming ≡ rest) where
    -- The reply of a request that takes no step, or has taken it with this response.
    pub finished :
        (failure : String) (s' : Server over_engine) (response : BridgeResponse) (payload : Bytes)
        → IsReady s'
        → s'.stream ≡ s.stream
        → payload ≡ response.response_data
        → Exchange g
            (device_of S s.queue.engine)
            (device_of S s'.queue.engine)
            q
            (reply_bytes q response)
        → Served q rest s
            (reply over_engine failure q.header.handle response.error_number payload s')
    finished failure s' response payload r' same p x =
        rw (reply-replied failure q.header.handle response.error_number payload s' r'.writable, p)
          (record {
            goes_on = refl;
            ready = record {
              valid = r'.valid;
              same_geometry = r'.same_geometry;
              running = r'.running;
              writable = r'.writable;
              closes = r'.closes;
            };
            unread = ap (λ t. t.incoming) same ∙ u;
            reply_sent = reply_bytes q response;
            outgoing = ap (λ t. t.outgoing ++ reply_bytes q response) same;
            exchange = x;
          })

  -- A request that the bridge takes while its loop runs.
  pub record Asked (c : BridgeCommand) (s : Server over_engine)
      (out : BridgeResponse × Server over_engine) : Type 0 where
    pub ready : IsReady out.1
    pub same_stream : out.1.stream ≡ s.stream
    pub step : Step g (device_of S s.queue.engine) (device_of S out.1.queue.engine) c out.0
    pub settled : Settled g (device_of S s.queue.engine) (device_of S out.1.queue.engine) c

  pub ask-Asked :
      (c : BridgeCommand) (s : Server over_engine)
      → IsReady s
      → (handle_request (caching_engine T K) g.block_size_bytes c s.queue.engine).1 ≡ false
      → Asked c s (ask over_engine false c s)
  unfolding ask request
  ask-Asked c s r continues =
      let (valid, same, step, settled) =
        handle_request_served S K g c s.queue.engine r.valid r.same_geometry in
      rw r.running (record {
        ready = record {
          valid = valid;
          same_geometry = same;
          running = ap not continues;
          writable = r.writable;
          closes = r.closes;
        };
        same_stream = refl;
        step = step;
        settled = settled;
      })
