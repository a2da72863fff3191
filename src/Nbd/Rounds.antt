-- ===== src/Nbd/Rounds.antt =====
-- One round of the loop of `serve_blocking` over a caching engine, on a request of a client and after
-- the last one.
use temporal_nbd.Prelude.{
  ℕ, ◌≡◌, refl, ap, ◌∙◌, false, some, none, err, [], ◌++◌, String, ok, arith, Bool-cases, inl, inr,
  leb, length, nil_of_length, ◌==◌,
}
use mathlib.Core.List.{append_assoc}
use temporal_nbd.Geometry.{VolumeGeometry}
use temporal_nbd.Transport.{BackendTransport, Bytes}
use temporal_nbd.Transport.Laws.{BlockStore}
use temporal_nbd.Engine.Flushing.{Clock}
use temporal_nbd.Nbd.Wire.{
  UnixStream, unexpected_eof, IoError, nbd_cmd_read, nbd_cmd_write, nbd_cmd_disc, nbd_cmd_flush,
  read_request_header, read_exact,
}
use temporal_nbd.Nbd.WireLaws.{request_bytes, read_request_header-request_bytes}
use temporal_nbd.Nbd.Server.{stop, Turn, Setting, Server, serve_request, serve_round}
use temporal_nbd.Nbd.Exchange.{NbdRequest, command_code, IsRequest, sent_bytes}
use temporal_nbd.Nbd.Requests.{over_engine, IsReady, Served}
use temporal_nbd.Nbd.Commands.{
  serve_read-Served, serve_write-Served, serve_flush-Served, serve_unsupported,
}

-- A round in which neither token is cancelled.
abbrev pub undisturbed : Turn
undisturbed = record { shutdown_cancelled = false; engine_cancelled = false }

read_exact_at_end :
    (t : UnixStream)
    → t.incoming ≡ []
    → t.ending ≡ unexpected_eof
    → read_exact 28 t ≡ (err unexpected_eof, record t { incoming = [] })
unfolding read_exact
read_exact_at_end t u c =
    let few : leb 28 (length t.incoming) ≡ false = rw u refl in
    rw (few, read_exact) (ap (λ x. (err x, record t { incoming = [] })) c)

header_at_end :
    (t : UnixStream)
    → t.incoming ≡ []
    → t.ending ≡ unexpected_eof
    → read_request_header t ≡ (ok none, record t { incoming = [] })
unfolding read_request_header
header_at_end t u c =
    let exact = read_exact_at_end t u c in
    rw (ap (λ p. p.0) exact, read_request_header) (ap (λ p. (ok none, p.1)) exact)

module _ {T : BackendTransport} {block_size : ℕ} (S : BlockStore T block_size) (K : Clock T)
    (g : VolumeGeometry) (closed dropped : String) (show_io : IoError → String) where
  abbrev C : Setting
  C = over_engine S K g closed dropped show_io

  abbrev Ready : Server C → Type 0
  Ready = IsReady S K g closed dropped show_io

  module _ (q : NbdRequest) (i : IsRequest q) (rest : Bytes) (s : Server C) (r : Ready s) where
    serve_request-Served :
        s.stream.incoming ≡ q.payload ++ rest
        → Served S K g closed dropped show_io q rest s (serve_request C false q.header s)
    unfolding serve_request
    serve_request-Served u =
        let code = command_code q.header in
        let bare : (code == nbd_cmd_write) ≡ false → s.stream.incoming ≡ rest = λ n.
          u ∙ ap (λ p. p ++ rest) (nil_of_length q.payload (ground (arith, i.payload_length))) in
        elim (Bool-cases (code == nbd_cmd_read)) [
          | inl is_read ↦
              rw (is_read, serve_request)
                (serve_read-Served S K g closed dropped show_io q rest s r (bare (ground arith))
                  (ground arith))
          | inr not_read ↦ elim (Bool-cases (code == nbd_cmd_write)) [
            | inl is_write ↦
                rw (not_read, is_write, serve_request)
                  (serve_write-Served S K g closed dropped show_io q rest s r
                    (ground (arith, i.payload_length)) u (ground arith))
            | inr not_write ↦ elim (Bool-cases (code == nbd_cmd_flush)) [
              | inl is_flush ↦
                  rw (not_read, not_write, is_flush, serve_request)
                    (serve_flush-Served S K g closed dropped show_io q rest s r (bare not_write)
                      (ground arith))
              | inr not_flush ↦
                  let not_disc : (code == nbd_cmd_disc) ≡ false = ground (arith, i.stays) in
                  rw (not_read, not_write, not_flush, not_disc, serve_request)
                    (serve_unsupported S K g closed dropped show_io q rest s r (bare not_write)
                      (ground arith))
            ]
          ]
        ]

  module _ (q : NbdRequest) (i : IsRequest q) (rest : Bytes) (s : Server C) (r : Ready s) where
    abbrev after_header : Server C
    after_header = record s { stream = record s.stream { incoming = q.payload ++ rest } }

    after_header-IsReady : Ready after_header
    after_header-IsReady = record {
      valid = r.valid;
      same_geometry = r.same_geometry;
      running = r.running;
      writable = r.writable;
      closes = r.closes;
    }

    pub serve_round-Served :
        s.stream.incoming ≡ sent_bytes q ++ rest
        → Served S K g closed dropped show_io q rest s (serve_round C undisturbed s)
    unfolding serve_round
    serve_round-Served u =
        let exact =
          read_request_header-request_bytes q.header (q.payload ++ rest) s.stream i.header_ok
            (u ∙ append_assoc (request_bytes q.header) q.payload rest) in
        let header : (read_request_header s.stream).0 ≡ ok (some q.header) = ap (λ p. p.0) exact in
        let left : (read_request_header s.stream).1 ≡ after_header.stream = ap (λ p. p.1) exact in
        let served = serve_request-Served q i rest after_header after_header-IsReady refl in
        rw (header, left, serve_round)
          (record {
            goes_on = served.goes_on;
            ready = served.ready;
            unread = served.unread;
            reply_sent = served.reply_sent;
            outgoing = served.outgoing;
            exchange = served.exchange;
          })

  abbrev pub drained : Server C → Server C
  drained s = record s { stream = record s.stream { incoming = [] } }

  pub drained-IsReady : (s : Server C) → Ready s → Ready (drained s)
  drained-IsReady s r = record {
    valid = r.valid;
    same_geometry = r.same_geometry;
    running = r.running;
    writable = r.writable;
    closes = r.closes;
  }

  pub round_stops :
      (s : Server C)
      → Ready s
      → s.stream.incoming ≡ []
      → serve_round C undisturbed s ≡ (stop, drained s)
  unfolding serve_round
  round_stops s r u =
      let exact = header_at_end s.stream u r.closes in
      let header : (read_request_header s.stream).0 ≡ ok none = ap (λ p. p.0) exact in
      rw (header, serve_round) (ap (λ p. (stop, record s { stream = p.1 })) exact)
