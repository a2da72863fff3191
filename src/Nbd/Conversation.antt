-- ===== src/Nbd/Conversation.antt =====
-- A client that sends requests and closes: over a caching engine, the server takes the steps of the
-- device that they ask for, in order, and its output is the replies.
use temporal_nbd.Prelude.{
  ℕ, zero, suc, ◌≡◌, ◌≤◌, ◌<◌, sym, ap, ◌∙◌, List, [], ◌∷◌, ◌++◌, All, String, arith, length,
  length-append,
}
use mathlib.Core.List.{append-nil, append_assoc}
use temporal_nbd.Geometry.{VolumeGeometry}
use temporal_nbd.Transport.{BackendTransport, Bytes}
use temporal_nbd.Transport.Laws.{BlockStore}
use temporal_nbd.Engine.Flushing.{Clock}
use temporal_nbd.Bridge.{BridgeResponse, disconnect}
use temporal_nbd.Bridge.Spec.{Device, Step}
use temporal_nbd.Bridge.Represents.{device_of}
use temporal_nbd.Nbd.Wire.{IoError}
use temporal_nbd.Nbd.WireLaws.{request_bytes, length-request_bytes}
use temporal_nbd.Nbd.Server.{Flow, stop, Setting, Server, serve_round, request_loop, serve_blocking}
use temporal_nbd.Nbd.Exchange.{
  NbdRequest, sent_bytes, Farewell, IsRequest, all_sent, Exchanges, none_left, and_then,
}
use temporal_nbd.Nbd.Requests.{over_engine, IsReady}
use temporal_nbd.Nbd.Rounds.{undisturbed, serve_round-Served}
use temporal_nbd.Nbd.Farewell.{Left, Left-of_loop, Farewell-Left}

module _ {T : BackendTransport} {block_size : ℕ} (S : BlockStore T block_size) (K : Clock T)
    (g : VolumeGeometry) (closed dropped : String) (show_io : IoError → String) where
  abbrev C : Setting
  C = over_engine S K g closed dropped show_io

  abbrev Ready : Server C → Type 0
  Ready = IsReady S K g closed dropped show_io

  -- The loop from one server to another: the requests are exchanges of the device and the output is
  -- their replies, up to the server that the client leaves.
  record Conversed (qs : List NbdRequest) (s : Server C) (out : Flow × Server C) : Type 0 where
    at : Server C
    leaves : Left S K g closed dropped show_io at out
    replies : Bytes
    outgoing : at.stream.outgoing ≡ s.stream.outgoing ++ replies
    exchanges : Exchanges g (device_of S s.queue.engine) (device_of S at.queue.engine) qs replies

  request_loop-Conversed :
      (farewell : Bytes) (f : Farewell farewell) (qs : List NbdRequest) (fuel : ℕ) (s : Server C)
      → length qs < fuel
      → Ready s
      → All IsRequest qs
      → s.stream.incoming ≡ all_sent qs ++ farewell
      → Conversed qs s (request_loop C fuel (λ _. undisturbed) s)
  unfolding request_loop
  request_loop-Conversed farewell f qs zero s l r i u = absurd (omega arith)
  request_loop-Conversed farewell f [] (suc fuel) s l r i u =
      let left = Farewell-Left S K g closed dropped show_io s r farewell f u in
      rw (left.stops, request_loop)
        (record {
          at = s;
          leaves = Left-of_loop S K g closed dropped show_io s (serve_round C undisturbed s) left;
          replies = [];
          outgoing = sym (append-nil s.stream.outgoing);
          exchanges = none_left;
        })
  request_loop-Conversed farewell f (q ∷ qs) (suc fuel) s l r i u =
      let round =
        serve_round-Served S K g closed dropped show_io q i.0 (all_sent qs ++ farewell) s r
          (u ∙ append_assoc (sent_bytes q) (all_sent qs) farewell) in
      let s' = (serve_round C undisturbed s).1 in
      let rest =
        request_loop-Conversed farewell f qs fuel s' (omega arith) round.ready i.1 round.unread in
      rw (round.goes_on, request_loop)
        (record {
          at = rest.at;
          leaves = rest.leaves;
          replies = round.reply_sent ++ rest.replies;
          outgoing =
              rest.outgoing
              ∙ ap (λ b. b ++ rest.replies) round.outgoing
              ∙ append_assoc s.stream.outgoing round.reply_sent rest.replies;
          exchanges = and_then round.exchange rest.exchanges;
        })

  requests-length : (qs : List NbdRequest) → All IsRequest qs → length qs ≤ length (all_sent qs)
  requests-length [] i = omega arith
  requests-length (q ∷ qs) i = omega (
    arith,
    requests-length qs i.1,
    length-append (request_bytes q.header ++ q.payload) (all_sent qs),
    length-append (request_bytes q.header) q.payload,
    length-request_bytes q.header i.0.header_ok,
  )

  -- A client sends requests, none of which is a disconnect, and closes or disconnects; the socket takes all writes,
  -- no token is cancelled, and the engine behind the bridge is in a state that satisfies the
  -- invariant. Whatever the transport does, `serve_blocking` ends without an error. The requests
  -- are, in order, the steps of the device that they ask for, or refused as unknown; the output is
  -- exactly one reply for each, in the same order, with the handle of the request and the error and
  -- the data of the response of its step. The last step is a disconnect.
  pub serve_blocking_converses :
      (qs : List NbdRequest) (farewell : Bytes) (s : Server C)
      → Ready s
      → All IsRequest qs
      → Farewell farewell
      → s.stream.incoming ≡ all_sent qs ++ farewell
      → let (flow, s') = serve_blocking C (λ _. undisturbed) s in
        (flow ≡ stop)
        × (d : Device) × (replies : Bytes) × (r : BridgeResponse) × Exchanges g
            (device_of S s.queue.engine)
            d
            qs
            replies
        × (s'.stream.outgoing ≡ s.stream.outgoing ++ replies)
        × Step g d (device_of S s'.queue.engine) disconnect r
  unfolding serve_blocking
  serve_blocking_converses qs farewell s r i f u =
      let enough : length qs < suc (length s.stream.incoming) =
        omega (arith, requests-length qs i, ap length u, length-append (all_sent qs) farewell) in
      let talk =
        request_loop-Conversed farewell f qs (suc (length s.stream.incoming)) s enough r i u in
      (
        talk.leaves.stops,
        device_of S talk.at.queue.engine,
        talk.replies,
        talk.leaves.response,
        talk.exchanges,
        talk.leaves.same_outgoing ∙ talk.outgoing,
        talk.leaves.step,
      )
