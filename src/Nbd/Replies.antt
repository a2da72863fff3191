-- ===== src/Nbd/Replies.antt =====
-- The replies of the loop, in the framing of the NBD protocol: the header with the handle of the
-- request, and after it a payload of the length asked for exactly if a read succeeds.
use temporal_nbd.Prelude.{
  ℕ, pos, ◌≡◌, ◌<◌, refl, ap, ◌⊎◌, false, [], ◌++◌, String, ◌<>◌, ok, arith, length, into_bytes,
  into_bytes-append, length-append,
}
use temporal_nbd.Errors.{eio}
use temporal_nbd.Transport.{Bytes}
use temporal_nbd.Bridge.{BridgeCommand, BridgeResponse, read}
use temporal_nbd.Bridge.Queue.{eio_response, request}
use temporal_nbd.Nbd.Wire.{RequestHeader, reply_header, validate_range}
use temporal_nbd.Nbd.WireLaws.{write_reply-outgoing}
use temporal_nbd.Nbd.Server.{Flow, continue, Setting, Server, ask, reply, serve_read}

-- A response whose error comes without data.
abbrev Framed : BridgeResponse → Type 0
Framed r = (r.error_number ≡ 0) ⊎ (r.response_data ≡ [])

message-length : (closed : String) → 0 < length (into_bytes ("bridge queue closed: " <> closed))
unfolding into_bytes
message-length closed =
    let text = into_bytes "bridge queue closed: " in
    omega (
      arith,
      ap length (into_bytes-append "bridge queue closed: " closed),
      length-append text (into_bytes closed),
    )

-- The round goes on after one reply to the request: a header with the error `e`, and the payload.
abbrev pub Replied : {C : Setting} → RequestHeader → ℕ → Bytes → Server C → Flow × Server C → Type 0
Replied h e payload s out =
    (out.0 ≡ continue)
    × (out.1.stream.outgoing ≡ s.stream.outgoing ++ (reply_header h.handle (pos e) ++ payload))

module _ (C : Setting) where
  reply-Replied :
      (failure : String) (h : RequestHeader) (e : ℕ) (payload : Bytes) (s : Server C)
      → s.stream.write_errors ≡ []
      → Replied h e payload s (reply C failure h.handle e payload s)
  unfolding reply
  reply-Replied failure h e payload s w =
      let exact = write_reply-outgoing h.handle (pos e) payload s.stream w in
      rw (ap (λ p. p.0) exact, reply) (refl, ap (λ p. p.1.outgoing) exact)

  ask_closed :
      (command : BridgeCommand) (s : Server C)
      → s.queue.running ≡ false
      → (ask C false command s).0 ≡ eio_response ("bridge queue closed: " <> C.closed)
  unfolding ask request
  ask_closed command s h = ground arith

  module _ (h : RequestHeader) (s : Server C) (w : s.stream.write_errors ≡ []) where
    -- Once the loop of the engine has ended and its receiver is gone, while the socket takes all
    -- writes, a read in the volume is answered with an error and, after the header, with the text of a message, which the
    -- protocol's framing has no place for.
    pub serve_read_unframed :
        s.queue.running ≡ false
        → validate_range C.geometry h.offset_bytes h.length_bytes ≡ ok tt
        → let message = into_bytes ("bridge queue closed: " <> C.closed) in
          Replied h eio message s (serve_read C false h s) × (0 < length message)
    unfolding serve_read ask
    serve_read_unframed closed valid =
        let message = into_bytes ("bridge queue closed: " <> C.closed) in
        let answered = ask_closed (read h.offset_bytes h.length_bytes) s closed in
        let s' = (ask C false (read h.offset_bytes h.length_bytes) s).1 in
        (
          rw (valid, answered, serve_read) (reply-Replied _ h eio message s' w),
          message-length C.closed,
        )
