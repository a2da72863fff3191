-- ===== src/Nbd/Leaving.antt =====
-- The last round of the loop of `serve_blocking`, whatever the tokens and the socket do: the client
-- leaves, or the shutdown is found cancelled.
use temporal_nbd.Prelude.{
  ℕ, ◌≡◌, ◌≢◌, refl, ap, ◌∙◌, ◌⊎◌, inl, inr, String, none, some, ok, err, [], ◌++◌, arith,
  Bool-cases,
}
use temporal_nbd.Geometry.{VolumeGeometry}
use temporal_nbd.Transport.{BackendTransport, Bytes, Volume}
use temporal_nbd.Transport.Laws.{BlockStore}
use temporal_nbd.Engine.Flushing.{Clock}
use temporal_nbd.Engine.Contract.{Respects}
use temporal_nbd.Nbd.Wire.{
  IoError, RequestHeader, UnixStream, read_exact, read_request_header, nbd_cmd_disc,
}
use temporal_nbd.Nbd.WireLaws.{IsHeader, request_bytes, read_request_header-request_bytes}
use temporal_nbd.Nbd.Server.{Flow, continue, Turn, Setting, Server, ask, serve_request, serve_round}
use temporal_nbd.Nbd.Exchange.{command_code, Farewell, closing, leaving}
use temporal_nbd.Nbd.Requests.{over_engine}
use temporal_nbd.Nbd.Interrupted.{Stands, ask-disconnected}

module _ {T : BackendTransport} {block_size : ℕ} (S : BlockStore T block_size) (K : Clock T)
    (g : VolumeGeometry) {P : T.State → Type 0} (R : Respects T g.total_blocks P)
    (closed dropped : String) (show_io : IoError → String) where
  abbrev C : Setting
  C = over_engine S K g closed dropped show_io

  abbrev Standing : Volume → Server C → Type 0
  Standing v s = Stands S K g R v s.queue

  -- The round in which the client leaves, or the shutdown is found cancelled.
  abbrev pub Leaves : Volume → Server C → Flow × Server C → Type 0
  Leaves v s out =
      (out.0 ≢ continue) × Standing v out.1 × (out.1.stream.outgoing ≡ s.stream.outgoing)

  same_outgoing : (t : UnixStream) → (read_request_header t).1.outgoing ≡ t.outgoing
  unfolding read_request_header read_exact
  same_outgoing t = ground arith

  header_missing :
      (t : UnixStream)
      → t.incoming ≡ []
      → ((read_request_header t).0 ≡ ok none)
        ⊎ ((x : IoError) × ((read_request_header t).0 ≡ err x))
  unfolding read_request_header read_exact
  header_missing t u = ground arith

  closing_round :
      (t : Turn) (v : Volume) (s : Server C)
      → s.stream.incoming ≡ []
      → Standing v s
      → Leaves v s (serve_round C t s)
  unfolding serve_round
  closing_round t v s u h = elim (Bool-cases t.shutdown_cancelled) [
    | inl k ↦ rw (k, serve_round) ((λ e. cc), h, refl)
    | inr k ↦ elim (header_missing s.stream u) [
      | inl m ↦ rw (k, m, serve_round) ((λ e. cc), h, same_outgoing s.stream)
      | inr (x, m) ↦ rw (k, m, serve_round) ((λ e. cc), h, same_outgoing s.stream)
    ]
  ]

  leaving_round :
      (t : Turn) (v : Volume) (s : Server C) (h : RequestHeader) (rest : Bytes)
      → IsHeader h
      → command_code h ≡ nbd_cmd_disc
      → s.stream.incoming ≡ request_bytes h ++ rest
      → Standing v s
      → Leaves v s (serve_round C t s)
  unfolding serve_round serve_request ask
  leaving_round t v s h rest i c u stands = elim (Bool-cases t.shutdown_cancelled) [
    | inl k ↦ rw (k, serve_round) ((λ e. cc), stands, refl)
    | inr k ↦
        let exact = read_request_header-request_bytes h rest s.stream i u in
        let header : (read_request_header s.stream).0 ≡ ok (some h) = ap (λ p. p.0) exact in
        let left : Server C = record s { stream = (read_request_header s.stream).1 } in
        let last =
          ask-disconnected S K g R closed dropped show_io t.engine_cancelled v left stands in
        let kept = same_outgoing s.stream in
        rw (k, header, serve_round) (rw c ((λ e. cc), inr last, kept))
  ]

  pub Farewell-Leaves :
      (t : Turn) (v : Volume) (s : Server C) (farewell : Bytes)
      → Farewell farewell
      → s.stream.incoming ≡ farewell
      → Standing v s
      → Leaves v s (serve_round C t s)
  Farewell-Leaves t v s farewell (closing e) u h = closing_round t v s (u ∙ e) h
  Farewell-Leaves t v s farewell (leaving header rest i c e) u h =
      leaving_round t v s header rest i c (u ∙ e) h
