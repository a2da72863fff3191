-- ===== src/Nbd/Prefix.antt =====
-- Whatever the tokens and the socket do: the requests of a client that take effect are the first ones,
-- in order, and the last operation of the engine is a disconnect.
use mathlib.Core.List.{append_assoc, append-nil}
use temporal_nbd.Prelude.{
  ℕ, zero, suc, ◌≡◌, ◌≢◌, refl, sym, ap, ◌∙◌, subst, inl, inr, false, String, Option-cases, List,
  [], ◌∷◌, ◌++◌, All, arith, length, take, drop, Bool-cases,
}
use temporal_nbd.Geometry.{VolumeGeometry}
use temporal_nbd.Transport.{BackendTransport, Bytes, Volume}
use temporal_nbd.Transport.Laws.{BlockStore}
use temporal_nbd.Engine.State.{Engine}
use temporal_nbd.Engine.Flushing.{Clock}
use temporal_nbd.Engine.Operations.{caching_engine}
use temporal_nbd.Engine.Contract.{Respects}
use temporal_nbd.Bridge.{BridgeResponse}
use temporal_nbd.Bridge.Spec.{effects}
use temporal_nbd.Nbd.Wire.{IoError}
use temporal_nbd.Nbd.Server.{
  continue, Turn, Setting, Server, ask, serve_round, request_loop, serve_blocking,
}
use temporal_nbd.Nbd.Exchange.{
  NbdRequest, IsRequest, sent_bytes, all_sent, Farewell, commands, asked, reply_bytes,
}
use temporal_nbd.Nbd.Requests.{over_engine}
use temporal_nbd.Nbd.Taking.{serve_round-Takes}
use temporal_nbd.Nbd.Interrupted.{Holds, Stands, Took, Stands-Took, IsFailure, ask-disconnected}
use temporal_nbd.Nbd.Writing.{StartsWith}
use temporal_nbd.Nbd.Loop.{loop_stops, loop_continues, shutdown_round}
use temporal_nbd.Nbd.Leaving.{Farewell-Leaves}

-- The bytes of the replies with these responses.
abbrev pub all_replies : List BridgeResponse → List NbdRequest → Bytes
all_replies [] qs = []
all_replies (r ∷ rs) [] = []
all_replies (r ∷ rs) (q ∷ qs) = reply_bytes q r ++ all_replies rs qs

module _ {T : BackendTransport} {block_size : ℕ} (S : BlockStore T block_size) (K : Clock T)
    (g : VolumeGeometry) {P : T.State → Type 0} (R : Respects T g.total_blocks P)
    (closed dropped : String) (show_io : IoError → String) where
  abbrev C : Setting
  C = over_engine S K g closed dropped show_io

  abbrev Standing : Volume → Server C → Type 0
  Standing v s = Stands S K g R v s.queue

  effects-commands :
      (q : NbdRequest) (qs : List NbdRequest) (v : Volume)
      → effects g (commands (q ∷ qs)) v ≡ effects g (commands qs) (effects g (commands (q ∷ [])) v)
  effects-commands q qs v = elim (Option-cases (asked q)) [
    | inl a ↦ rw (a, commands) refl
    | inr (c, a) ↦ rw (a, commands) refl
  ]

  -- From a server of which a client sees `v` to another: some of the first requests have had their
  -- effects, in order, and no other has. The output has their replies, and after them only replies
  -- of errors, as far as the socket has taken them. If the bridge was closed, no request had effects.
  pub record Story (qs : List NbdRequest) (v : Volume) (s s' : Server C) : Type 0 where
    pub count : ℕ
    pub responses : List BridgeResponse
    pub stands : Standing (effects g (commands (take count qs)) v) s'
    pub failures : All IsFailure (drop count responses)
    pub written : StartsWith (s.stream.outgoing ++ all_replies responses qs) s'.stream.outgoing
    pub none_if_closed : s.queue.running ≡ false → count ≡ 0

  -- No request is taken and nothing is written.
  nothing_more :
      (qs : List NbdRequest) (v : Volume) (s s' : Server C)
      → Standing v s'
      → s'.stream.outgoing ≡ s.stream.outgoing
      → Story qs v s s'
  nothing_more qs v s s' h same = record {
    count = 0;
    responses = [];
    stands = h;
    failures = tt;
    written = ([], ap (λ b. b ++ []) same);
    none_if_closed = λ _. refl;
  }

  -- A request whose reply is the last thing that is written.
  last_one :
      (q : NbdRequest) (qs : List NbdRequest) (v : Volume) (s s' : Server C) (r : BridgeResponse)
      → Took S K g R q v r s'.queue × (s.queue.running ≡ false → s'.queue.running ≡ false)
      → StartsWith (s.stream.outgoing ++ reply_bytes q r) s'.stream.outgoing
      → Story (q ∷ qs) v s s'
  last_one q qs v s s' r (inl stands, closed) (rest, w) = record {
    count = 1;
    responses = r ∷ [];
    stands = inl stands;
    failures = tt;
    written = (rest, w ∙ ap (λ b. s.stream.outgoing ++ b) (sym (append-nil (reply_bytes q r))));
    none_if_closed = λ over. let over' = closed over in cc;
  }
  last_one q qs v s s' r (inr (fails, over, e, holds, at), closed) (rest, w) = record {
    count = 0;
    responses = r ∷ [];
    stands = inr (over, e, holds, at);
    failures = (fails, tt);
    written = (rest, w ∙ ap (λ b. s.stream.outgoing ++ b) (sym (append-nil (reply_bytes q r))));
    none_if_closed = λ _. refl;
  }

  written_after :
      (s s' s'' : Server C) (reply rest : Bytes)
      → s'.stream.outgoing ≡ s.stream.outgoing ++ reply
      → StartsWith (s'.stream.outgoing ++ rest) s''.stream.outgoing
      → StartsWith (s.stream.outgoing ++ (reply ++ rest)) s''.stream.outgoing
  written_after s s' s'' reply rest w (left, e) =
      (left, e ∙ ap (λ b. b ++ rest) w ∙ append_assoc s.stream.outgoing reply rest)

  -- A request before others.
  one_more :
      (q : NbdRequest) (qs : List NbdRequest) (v : Volume) (s s' s'' : Server C)
      (r : BridgeResponse)
      → Took S K g R q v r s'.queue × (s.queue.running ≡ false → s'.queue.running ≡ false)
      → s'.stream.outgoing ≡ s.stream.outgoing ++ reply_bytes q r
      → ((v' : Volume) → Standing v' s' → Story qs v' s' s'')
      → Story (q ∷ qs) v s s''
  one_more q qs v s s' s'' r (inl stands, closed) w later =
      let story = later (effects g (commands (q ∷ [])) v) (inl stands) in
      record {
        count = suc story.count;
        responses = r ∷ story.responses;
        stands = rw (effects-commands q (take story.count qs) v) story.stands;
        failures = story.failures;
        written =
            written_after s s' s'' (reply_bytes q r) (all_replies story.responses qs) w
              story.written;
        none_if_closed = λ over. let over' = closed over in cc;
      }
  one_more q qs v s s' s'' r (inr (fails, over, e, holds, at), closed) w later =
      let story = later v (inr (over, e, holds, at)) in
      let none_taken = story.none_if_closed over in
      record {
        count = 0;
        responses = r ∷ story.responses;
        stands =
            subst (λ n. Standing (effects g (commands (take n qs)) v) s'') none_taken story.stands;
        failures =
            (fails, subst (λ n. All IsFailure (drop n story.responses)) none_taken story.failures);
        written =
            written_after s s' s'' (reply_bytes q r) (all_replies story.responses qs) w
              story.written;
        none_if_closed = λ _. refl;
      }

  module _ (turns : ℕ → Turn) (farewell : Bytes) (f : Farewell farewell) where
    request_loop-Story :
        (fuel : ℕ) (qs : List NbdRequest) (v : Volume) (s : Server C)
        → All IsRequest qs
        → s.stream.incoming ≡ all_sent qs ++ farewell
        → Standing v s
        → Story qs v s (request_loop C fuel turns s).1
    unfolding request_loop
    request_loop-Story zero qs v s i u h = nothing_more qs v s s h refl
    request_loop-Story (suc fuel) [] v s i u h =
        let (stops, stands, same) =
          Farewell-Leaves S K g R closed dropped show_io (turns fuel) v s farewell f u h in
        subst (Story [] v s) (sym (loop_stops C fuel turns s stops))
          (nothing_more [] v s (serve_round C (turns fuel) s).1 stands same)
    request_loop-Story (suc fuel) (q ∷ qs) v s i u h =
        let s' = (serve_round C (turns fuel) s).1 in
        elim (Bool-cases (turns fuel).shutdown_cancelled) [
          | inl k ↦
              let round = shutdown_round C (turns fuel) s k in
              let stops : (serve_round C (turns fuel) s).0 ≢ continue =
                λ e. ground (arith, round) in
              subst (Story (q ∷ qs) v s)
                (sym (loop_stops C fuel turns s stops ∙ ap (λ o. o.1) round))
                (nothing_more (q ∷ qs) v s s h refl)
          | inr k ↦
              let takes =
                serve_round-Takes C q i.0 (all_sent qs ++ farewell) (turns fuel) s k
                  (u ∙ append_assoc (sent_bytes q) (all_sent qs) farewell) in
              let took =
                Stands-Took S K g R closed dropped show_io q (turns fuel).engine_cancelled v s.queue
                  s'.queue takes.response h takes.taken in
              elim takes.wrote [
                | inr (stops, w) ↦
                    subst (Story (q ∷ qs) v s) (sym (loop_stops C fuel turns s stops))
                      (last_one q qs v s s' takes.response took w)
                | inl (goes_on, w) ↦
                    subst (Story (q ∷ qs) v s)
                      (sym (ap (λ o. o.1) (loop_continues C fuel turns s goes_on)))
                      (one_more q qs v s s' (request_loop C fuel turns s').1 takes.response took w
                        (λ v' h'. request_loop-Story fuel qs v' s' i.1 takes.unread h'))
              ]
        ]

    -- The server after everything: it has disconnected an engine that has the effects of the first
    -- requests, and has written what the loop has.
    pub record Ended (qs : List NbdRequest) (v : Volume) (s s' : Server C) : Type 0 where
      pub count : ℕ
      pub responses : List BridgeResponse
      pub last : Engine T
      pub holds : Holds S K g R (effects g (commands (take count qs)) v) last
      pub disconnected : s'.queue.engine ≡ ((caching_engine T K).disconnect last).1
      pub failures : All IsFailure (drop count responses)
      pub written : StartsWith (s.stream.outgoing ++ all_replies responses qs) s'.stream.outgoing

    pub serve_blocking-Ended :
        (qs : List NbdRequest) (v : Volume) (s : Server C)
        → All IsRequest qs
        → s.stream.incoming ≡ all_sent qs ++ farewell
        → Standing v s
        → Ended qs v s (serve_blocking C turns s).1
    unfolding serve_blocking ask
    serve_blocking-Ended qs v s i u h =
        let story = request_loop-Story (suc (length s.stream.incoming)) qs v s i u h in
        let left = (request_loop C (suc (length s.stream.incoming)) turns s).1 in
        let (over, e, holds, last) =
          ask-disconnected S K g R closed dropped show_io (turns 0).engine_cancelled
            (effects g (commands (take story.count qs)) v) left story.stands in
        record {
          count = story.count;
          responses = story.responses;
          last = e;
          holds = holds;
          disconnected = last;
          failures = story.failures;
          written = story.written;
        }
