-- ===== src/Nbd/Commands.antt =====
-- The arms of the `match` of `serve_blocking` over a caching engine: each serves its request.
use temporal_nbd.Prelude.{
  ℕ, ◌≡◌, refl, sym, ap, subst, false, none, some, [], ◌++◌, String, ok, err, inl, inr, length,
}
use temporal_nbd.Errors.{einval}
use temporal_nbd.Geometry.{VolumeGeometry}
use temporal_nbd.Geometry.Laws.{IsSized}
use temporal_nbd.Transport.{BackendTransport, Bytes}
use temporal_nbd.Transport.Laws.{BlockStore}
use temporal_nbd.Engine.Flushing.{Clock}
use temporal_nbd.Engine.Operations.{caching_engine}
use temporal_nbd.Engine.View.{view-IsUniform}
use temporal_nbd.Bridge.{read, write, flush}
use temporal_nbd.Bridge.Spec.{failure, read_refused, write_refused}
use temporal_nbd.Bridge.Represents.{device_of}
use temporal_nbd.Bridge.Loop.{read_continues, write_continues, flush_continues}
use temporal_nbd.Nbd.Wire.{RequestHeader, IoError, read_exact, validate_range}
use temporal_nbd.Nbd.Range.{validate_range-cases}
use temporal_nbd.Nbd.WireLaws.{read_exact-append}
use temporal_nbd.Nbd.Server.{
  Flow, Setting, Server, ask, reply, serve_read, serve_write, serve_flush,
}
use temporal_nbd.Nbd.Requests.{over_engine, IsReady, Served, finished, ask-Asked}
use temporal_nbd.Nbd.StepLaws.{refused-accepts, read-length, write-no_data, flush-no_data}
use temporal_nbd.Nbd.Exchange.{NbdRequest, Exchange, answered, unsupported, reply_bytes, asked}

module _ {T : BackendTransport} {block_size : ℕ} (S : BlockStore T block_size) (K : Clock T)
    (g : VolumeGeometry) (closed dropped : String) (show_io : IoError → String) where
  abbrev C : Setting
  C = over_engine S K g closed dropped show_io

  abbrev Ready : Server C → Type 0
  Ready = IsReady S K g closed dropped show_io

  sized : (s : Server C) → Ready s → IsSized g
  sized s r = subst IsSized r.same_geometry r.valid.sized

  -- The exchange of a request whose range the server refuses.
  refused_read :
      (q : NbdRequest) (offset len : ℕ) (s : Server C)
      → Ready s
      → asked q ≡ some (read offset len)
      → validate_range g offset len ≡ err einval
      → let d = device_of S s.queue.engine in Exchange g d d q (reply_bytes q (failure einval))
  refused_read q offset len s r a h =
      answered a (read_refused (refused-accepts g offset len (sized s r) h) refl refl)
        (λ lba w p. (p, refl)) refl

  refused_write :
      (q : NbdRequest) (offset : ℕ) (bytes : Bytes) (s : Server C)
      → Ready s
      → asked q ≡ some (write offset bytes)
      → validate_range g offset (length bytes) ≡ err einval
      → let d = device_of S s.queue.engine in Exchange g d d q (reply_bytes q (failure einval))
  refused_write q offset bytes s r a h =
      answered a (write_refused (refused-accepts g offset (length bytes) (sized s r) h) refl refl)
        (λ lba w p. (p, refl)) refl

  module _ (q : NbdRequest) (rest : Bytes) (s : Server C) (r : Ready s)
      (u : s.stream.incoming ≡ rest) where
    abbrev h : RequestHeader
    h = q.header

    pub serve_read-Served :
        asked q ≡ some (read h.offset_bytes h.length_bytes)
        → Served S K g closed dropped show_io q rest s (serve_read C false h s)
    unfolding serve_read
    serve_read-Served a =
        let c = read h.offset_bytes h.length_bytes in
        let taken = ask-Asked S K g closed dropped show_io c s r (
          read_continues (caching_engine T K) g.block_size_bytes h.offset_bytes h.length_bytes
            s.queue.engine) in
        elim (validate_range-cases g h.offset_bytes h.length_bytes) [
          | inr refused ↦
              rw (refused, serve_read)
                (finished S K g closed dropped show_io q rest s r u _ s (failure einval) [] r refl
                  refl (refused_read q h.offset_bytes h.length_bytes s r a refused))
          | inl valid ↦
              let long =
                read-length (view-IsUniform S s.queue.engine r.valid r.same_geometry) taken.step in
              rw (valid, long, serve_read)
                (finished S K g closed dropped show_io q rest s r u _ (ask C false c s).1
                  (ask C false c s).0 (ask C false c s).0.response_data taken.ready
                  taken.same_stream refl (answered a taken.step taken.settled refl))
        ]

    pub serve_flush-Served :
        asked q ≡ some flush
        → Served S K g closed dropped show_io q rest s (serve_flush C false h s)
    unfolding serve_flush
    serve_flush-Served a =
        let taken =
          ask-Asked S K g closed dropped show_io flush s r
            (flush_continues (caching_engine T K) g.block_size_bytes s.queue.engine) in
        finished S K g closed dropped show_io q rest s r u _ (ask C false flush s).1
          (ask C false flush s).0 [] taken.ready taken.same_stream (sym (flush-no_data taken.step))
          (answered a taken.step taken.settled refl)

    pub serve_unsupported :
        asked q ≡ none
        → Served S K g closed dropped show_io q rest s
            (reply C "failed to write unsupported-cmd reply: " h.handle einval [] s)
    serve_unsupported a =
        finished S K g closed dropped show_io q rest s r u _ s (failure einval) [] r refl refl
          (unsupported a refl refl)

  module _ (q : NbdRequest) (rest : Bytes) (s : Server C) (r : Ready s)
      (l : length q.payload ≡ q.header.length_bytes)
      (u : s.stream.incoming ≡ q.payload ++ rest) where
    -- The server once it has read the payload.
    abbrev unloaded : Server C
    unloaded = record s { stream = record s.stream { incoming = rest } }

    unloaded-IsReady : Ready unloaded
    unloaded-IsReady = record {
      valid = r.valid;
      same_geometry = r.same_geometry;
      running = r.running;
      writable = r.writable;
      closes = r.closes;
    }

    served :
        {out : Flow × Server C}
        → Served S K g closed dropped show_io q rest unloaded out
        → Served S K g closed dropped show_io q rest s out
    served x = record {
      goes_on = x.goes_on;
      ready = x.ready;
      unread = x.unread;
      reply_sent = x.reply_sent;
      outgoing = x.outgoing;
      exchange = x.exchange;
    }

    pub serve_write-Served :
        asked q ≡ some (write q.header.offset_bytes q.payload)
        → Served S K g closed dropped show_io q rest s (serve_write C false q.header s)
    unfolding serve_write
    serve_write-Served a =
        let exact = read_exact-append q.header.length_bytes q.payload rest s.stream (sym l) u in
        let bytes : (read_exact q.header.length_bytes s.stream).0 ≡ ok q.payload =
          ap (λ p. p.0) exact in
        let left : (read_exact q.header.length_bytes s.stream).1 ≡ unloaded.stream =
          ap (λ p. p.1) exact in
        let c = write q.header.offset_bytes q.payload in
        let ready = unloaded-IsReady in
        let taken = ask-Asked S K g closed dropped show_io c unloaded ready (
          write_continues (caching_engine T K) g.block_size_bytes q.header.offset_bytes q.payload
            s.queue.engine) in
        elim (validate_range-cases g q.header.offset_bytes q.header.length_bytes) [
          | inr refused ↦
              rw (bytes, refused, left, serve_write)
                (served (
                  finished S K g closed dropped show_io q rest unloaded ready refl _ unloaded
                    (failure einval) [] ready refl refl
                    (refused_write q q.header.offset_bytes q.payload unloaded ready a (
                      subst (λ n. validate_range g q.header.offset_bytes n ≡ err einval) (sym l)
                        refused))))
          | inl valid ↦
              rw (bytes, valid, left, serve_write)
                (served (
                  finished S K g closed dropped show_io q rest unloaded ready refl _
                    (ask C false c unloaded).1 (ask C false c unloaded).0 [] taken.ready
                    taken.same_stream (sym (write-no_data taken.step))
                    (answered a taken.step taken.settled refl)))
        ]
