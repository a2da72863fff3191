-- ===== src/Nbd/Taking.antt =====
-- One round of the loop of `serve_blocking` on a request of a client, whatever the tokens and the
-- socket do: what it reads, and what becomes of the queue to the bridge.
use mathlib.Core.List.{append_assoc}
use temporal_nbd.Prelude.{
  ℕ, ◌≡◌, refl, sym, ap, ◌∙◌, subst, inl, inr, Bool, false, String, ok, err, none, some, ◌++◌, ◌≢◌,
  ◌⊎◌, [], not, ◌&&◌, arith, length, Bool-cases, nil_of_length, ◌==◌,
}
use temporal_nbd.Errors.{einval, eio}
use temporal_nbd.Transport.{Bytes}
use temporal_nbd.Bridge.{BridgeCommand, read, write, flush, BridgeResponse}
use temporal_nbd.Bridge.Spec.{failure}
use temporal_nbd.Bridge.Queue.{BridgeQueue, request}
use temporal_nbd.Nbd.Wire.{
  RequestHeader, nbd_cmd_read, nbd_cmd_write, nbd_cmd_disc, nbd_cmd_flush, read_exact,
  read_request_header, validate_range,
}
use temporal_nbd.Nbd.Range.{validate_range-cases}
use temporal_nbd.Nbd.WireLaws.{read_exact-append, request_bytes, read_request_header-request_bytes}
use temporal_nbd.Nbd.Writing.{StartsWith, Wrote, reply-Wrote, reply-incoming}
use temporal_nbd.Nbd.Loop.{reply-queue}
use temporal_nbd.Nbd.Server.{
  Flow, continue, Turn, Setting, Server, ask, reply, serve_read, serve_write, serve_flush,
  serve_request, serve_round,
}
use temporal_nbd.Nbd.Exchange.{NbdRequest, command_code, IsRequest, sent_bytes, asked, reply_bytes}

module _ (C : Setting) where
  abbrev pub bridged : Bool → BridgeCommand → BridgeQueue C.E → BridgeResponse × BridgeQueue C.E
  bridged = request C.E C.geometry.block_size_bytes C.closed C.dropped

  -- What becomes of the queue, and the response to the client: the bridge is asked for what the
  -- request asks for, and the client reads of a success only where the bridge does; or the bridge is
  -- not asked, where the range is refused or the command is unknown, and the client reads of an
  -- error.
  pub data Taken (q : NbdRequest) (c : Bool) (before after : BridgeQueue C.E) (r : BridgeResponse)
      : Type 0 where
    passed_on :
        {command : BridgeCommand}
        → asked q ≡ some command
        → after ≡ (bridged c command before).1
        → (r.error_number ≡ 0 → (bridged c command before).0.error_number ≡ 0)
        → Taken q c before after r
    refused_read :
        {offset len : ℕ}
        → asked q ≡ some (read offset len)
        → after ≡ before
        → r ≡ failure einval
        → Taken q c before after r
    refused_write :
        {offset : ℕ} {bytes : Bytes}
        → asked q ≡ some (write offset bytes)
        → validate_range C.geometry offset (length bytes) ≡ err einval
        → after ≡ before
        → r ≡ failure einval
        → Taken q c before after r
    unknown : asked q ≡ none → after ≡ before → r ≡ failure einval → Taken q c before after r

  -- From the server before a request to the one after it: what follows the request is left to
  -- read, and the reply is written, as far as the socket takes it.
  pub record Takes (q : NbdRequest) (rest : Bytes) (c : Bool) (s : Server C) (out : Flow × Server C)
      : Type 0 where
    pub unread : out.1.stream.incoming ≡ rest
    pub response : BridgeResponse
    pub taken : Taken q c s.queue out.1.queue response
    pub wrote : Wrote C (reply_bytes q response) s out

  -- A reply takes nothing, after a server that has.
  reply-Takes :
      {q : NbdRequest} {rest : Bytes} {c : Bool} {s : Server C} (message : String)
      (r : BridgeResponse) (s' : Server C)
      → s'.stream.incoming ≡ rest
      → s'.stream.outgoing ≡ s.stream.outgoing
      → Taken q c s.queue s'.queue r
      → Takes q rest c s (reply C message q.header.handle r.error_number r.response_data s')
  reply-Takes {q} {rest} {c} {s} message r s' u o t =
      let handle = q.header.handle in
      let out = reply C message handle r.error_number r.response_data s' in
      record {
        unread = reply-incoming C message handle r.error_number r.response_data s' ∙ u;
        response = r;
        taken =
            subst (λ queue. Taken q c s.queue queue r)
              (sym (reply-queue C message handle r.error_number r.response_data s')) t;
        wrote =
            subst
              (λ sent.
                ((out.0 ≡ continue) × (out.1.stream.outgoing ≡ sent ++ reply_bytes q r))
                ⊎ ((out.0 ≢ continue) × StartsWith (sent ++ reply_bytes q r) out.1.stream.outgoing))
              o (reply-Wrote C message handle r.error_number r.response_data s');
      }

  module _ (q : NbdRequest) (rest : Bytes) (c : Bool) (s : Server C)
      (u : s.stream.incoming ≡ rest) where
    abbrev h : RequestHeader
    h = q.header

    serve_read-Takes :
        asked q ≡ some (read h.offset_bytes h.length_bytes) → Takes q rest c s (serve_read C c h s)
    unfolding serve_read ask
    serve_read-Takes a = elim (validate_range-cases C.geometry h.offset_bytes h.length_bytes) [
      | inr refused ↦
          rw (refused, serve_read)
            (reply-Takes _ (failure einval) s u refl (refused_read a refl refl))
      | inl valid ↦
          let ask_read = ask C c (read h.offset_bytes h.length_bytes) s in
          let bridge = ask_read.0 in
          elim (Bool-cases (
            (ask_read.0.error_number == 0)
            && not (length ask_read.0.response_data == h.length_bytes))) [
              | inl short ↦
                  rw (valid, short, serve_read)
                    (reply-Takes _ (failure eio) ask_read.1 u refl
                      (passed_on a refl (λ e. absurd (omega arith))))
              | inr long ↦
                  rw (valid, long, serve_read)
                    (reply-Takes _ bridge ask_read.1 u refl (passed_on a refl (λ e. e)))
            ]
    ]

    serve_flush-Takes : asked q ≡ some flush → Takes q rest c s (serve_flush C c h s)
    unfolding serve_flush ask
    serve_flush-Takes a =
        reply-Takes _
          (record { error_number = (ask C c flush s).0.error_number; response_data = [] })
          (ask C c flush s).1 u refl (passed_on a refl (λ e. e))

    serve_unknown :
        asked q ≡ none
        → Takes q rest c s (reply C "failed to write unsupported-cmd reply: " h.handle einval [] s)
    serve_unknown a = reply-Takes _ (failure einval) s u refl (unknown a refl refl)

  module _ (q : NbdRequest) (rest : Bytes) (c : Bool) (s : Server C)
      (l : length q.payload ≡ q.header.length_bytes)
      (u : s.stream.incoming ≡ q.payload ++ rest) where
    -- The server once it has read the payload.
    abbrev unloaded : Server C
    unloaded = record s { stream = record s.stream { incoming = rest } }

    same_start : {out : Flow × Server C} → Takes q rest c unloaded out → Takes q rest c s out
    same_start t = record {
      unread = t.unread;
      response = t.response;
      taken = t.taken;
      wrote = t.wrote;
    }

    serve_write-Takes :
        asked q ≡ some (write q.header.offset_bytes q.payload)
        → Takes q rest c s (serve_write C c q.header s)
    unfolding serve_write ask
    serve_write-Takes a =
        let exact = read_exact-append q.header.length_bytes q.payload rest s.stream (sym l) u in
        let bytes : (read_exact q.header.length_bytes s.stream).0 ≡ ok q.payload =
          ap (λ p. p.0) exact in
        let left : (read_exact q.header.length_bytes s.stream).1 ≡ unloaded.stream =
          ap (λ p. p.1) exact in
        let write_it = write q.header.offset_bytes q.payload in
        elim (validate_range-cases C.geometry q.header.offset_bytes q.header.length_bytes) [
          | inr refused ↦
              let outside =
                subst (λ n. validate_range C.geometry q.header.offset_bytes n ≡ err einval) (sym l)
                  refused in
              rw (bytes, refused, left, serve_write)
                (same_start (
                  reply-Takes _ (failure einval) unloaded refl refl
                    (refused_write a outside refl refl)))
          | inl valid ↦
              rw (bytes, valid, left, serve_write)
                (same_start (
                  reply-Takes _
                    (record {
                      error_number = (ask C c write_it unloaded).0.error_number;
                      response_data = [];
                    })
                    (ask C c write_it unloaded).1 refl refl (passed_on a refl (λ e. e))))
        ]

  module _ (q : NbdRequest) (i : IsRequest q) (rest : Bytes) where
    serve_request-Takes :
        (c : Bool) (s : Server C)
        → s.stream.incoming ≡ q.payload ++ rest
        → Takes q rest c s (serve_request C c q.header s)
    unfolding serve_request
    serve_request-Takes c s u =
        let code = command_code q.header in
        let bare : (code == nbd_cmd_write) ≡ false → s.stream.incoming ≡ rest = λ n.
          u ∙ ap (λ p. p ++ rest) (nil_of_length q.payload (ground (arith, i.payload_length))) in
        elim (Bool-cases (code == nbd_cmd_read)) [
          | inl is_read ↦
              rw (is_read, serve_request)
                (serve_read-Takes q rest c s (bare (ground arith)) (ground arith))
          | inr not_read ↦ elim (Bool-cases (code == nbd_cmd_write)) [
            | inl is_write ↦
                rw (not_read, is_write, serve_request)
                  (serve_write-Takes q rest c s (ground (arith, i.payload_length)) u (ground arith))
            | inr not_write ↦ elim (Bool-cases (code == nbd_cmd_flush)) [
              | inl is_flush ↦
                  rw (not_read, not_write, is_flush, serve_request)
                    (serve_flush-Takes q rest c s (bare not_write) (ground arith))
              | inr not_flush ↦
                  let not_disc : (code == nbd_cmd_disc) ≡ false = ground (arith, i.stays) in
                  rw (not_read, not_write, not_flush, not_disc, serve_request)
                    (serve_unknown q rest c s (bare not_write) (ground arith))
            ]
          ]
        ]

    -- A round that does not find the shutdown cancelled takes the next request.
    pub serve_round-Takes :
        (t : Turn) (s : Server C)
        → t.shutdown_cancelled ≡ false
        → s.stream.incoming ≡ sent_bytes q ++ rest
        → Takes q rest t.engine_cancelled s (serve_round C t s)
    unfolding serve_round
    serve_round-Takes t s k u =
        let after_header : Server C = record s {
          stream = record s.stream { incoming = q.payload ++ rest };
        } in
        let exact =
          read_request_header-request_bytes q.header (q.payload ++ rest) s.stream i.header_ok
            (u ∙ append_assoc (request_bytes q.header) q.payload rest) in
        let header : (read_request_header s.stream).0 ≡ ok (some q.header) = ap (λ p. p.0) exact in
        let left : (read_request_header s.stream).1 ≡ after_header.stream = ap (λ p. p.1) exact in
        let takes = serve_request-Takes t.engine_cancelled after_header refl in
        rw (k, header, left, serve_round)
          (record {
            unread = takes.unread;
            response = takes.response;
            taken = takes.taken;
            wrote = takes.wrote;
          })
