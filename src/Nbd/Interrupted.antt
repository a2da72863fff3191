-- ===== src/Nbd/Interrupted.antt =====
-- The engine behind a server whose tokens and socket may do anything: a request of the client has its
-- effect, or the engine has met its disconnect before.
use temporal_nbd.Prelude.{
  ℕ, ◌≡◌, ◌≢◌, refl, sym, ap, ◌∙◌, subst, ◌⊎◌, inl, inr, Bool, true, false, String, none, some, [],
  ◌∷◌, arith, length, Bool-cases, Result-cases,
}
use temporal_nbd.BTree.{IsSorted}
use temporal_nbd.Geometry.{VolumeGeometry}
use temporal_nbd.Geometry.Laws.{IsSized}
use temporal_nbd.Transport.{BackendTransport, Volume}
use temporal_nbd.Transport.Laws.{BlockStore}
use temporal_nbd.Engine.State.{Engine}
use temporal_nbd.Engine.Flushing.{Clock}
use temporal_nbd.Engine.Operations.{caching_engine}
use temporal_nbd.Engine.View.{view, IsValid}
use temporal_nbd.Engine.Contract.{
  Respects, read_blocks_respects, write_blocks_respects, flush_respects, disconnect_respects,
}
use temporal_nbd.Bridge.{
  BridgeCommand, BridgeResponse, read, write, flush, disconnect, handle_request, offset_len_to_lba,
}
use temporal_nbd.Bridge.Queue.{BridgeQueue, request}
use temporal_nbd.Bridge.Spec.{effect, effects, Step-effect}
use temporal_nbd.Bridge.Loop.{read_continues, write_continues, flush_continues}
use temporal_nbd.Bridge.Runs.{handle_request_served}
use temporal_nbd.Nbd.Wire.{IoError}
use temporal_nbd.Nbd.StepLaws.{refused-accepts}
use temporal_nbd.Nbd.Server.{Setting, Server, ask}
use temporal_nbd.Nbd.Exchange.{NbdRequest, asked, commands}
use temporal_nbd.Nbd.Requests.{over_engine}
use temporal_nbd.Nbd.Taking.{bridged, Taken, passed_on, refused_read, refused_write, unknown}

-- The client reads of an error.
abbrev pub IsFailure : BridgeResponse → Type 0
IsFailure r = r.error_number ≢ 0

module _ {T : BackendTransport} (K : Clock T) {g : VolumeGeometry} {P : T.State → Type 0}
    (R : Respects T g.total_blocks P) where
  -- What the calls within the limits preserve, a request to the bridge does.
  handle_request_respects :
      (command : BridgeCommand) (size : ℕ) (e : Engine T)
      → e.geometry ≡ g
      → IsSorted e.dirty
      → P e.transport
      → P (handle_request (caching_engine T K) size command e).2.transport
  unfolding handle_request
  handle_request_respects (read o n) size e same s p =
      let R' : Respects T e.geometry.total_blocks P =
        subst (λ k. Respects T k.total_blocks P) (sym same) R in
      elim (Result-cases (offset_len_to_lba o n size)) [
        | inl ((lba, count), h) ↦ rw (h, handle_request) (read_blocks_respects K e R' s p lba count)
        | inr (x, h) ↦ rw (h, handle_request) p
      ]
  handle_request_respects (write o b) size e same s p =
      let R' : Respects T e.geometry.total_blocks P =
        subst (λ k. Respects T k.total_blocks P) (sym same) R in
      elim (Result-cases (offset_len_to_lba o (length b) size)) [
        | inl ((lba, count), h) ↦ rw (h, handle_request) (write_blocks_respects K e R' s p lba b)
        | inr (x, h) ↦ rw (h, handle_request) p
      ]
  handle_request_respects flush size e same s p =
      flush_respects K e (subst (λ k. Respects T k.total_blocks P) (sym same) R) s p
  handle_request_respects disconnect size e same s p =
      disconnect_respects K e (subst (λ k. Respects T k.total_blocks P) (sym same) R) s p

module _ {T : BackendTransport} {block_size : ℕ} (S : BlockStore T block_size) (K : Clock T)
    (g : VolumeGeometry) {P : T.State → Type 0} (R : Respects T g.total_blocks P) where
  -- An engine in order, over a transport in order, of which a client sees the volume `v`.
  pub record Holds (v : Volume) (e : Engine T) : Type 0 where
    pub valid : IsValid S e
    pub same_geometry : e.geometry ≡ g
    pub sees : view S e ≡ v
    pub within : P e.transport

  -- The bridge runs and a client sees `v`; or its loop has disconnected the engine, of which a client
  -- saw `v`.
  abbrev pub Stands : Volume → BridgeQueue (caching_engine T K) → Type 0
  Stands v queue =
      ((queue.running ≡ true) × Holds v queue.engine)
      ⊎ ((queue.running ≡ false)
          × (e : Engine T) × Holds v e
          × (queue.engine ≡ ((caching_engine T K).disconnect e).1))

  handled-Holds :
      (command : BridgeCommand) (v : Volume) (e : Engine T)
      → Holds v e
      → Holds
          (effect g command v)
          (handle_request (caching_engine T K) g.block_size_bytes command e).2
  handled-Holds command v e h =
      let (valid, same, step, settled) =
        handle_request_served S K g command e h.valid h.same_geometry in
      record {
        valid = valid;
        same_geometry = same;
        sees = Step-effect step ∙ ap (effect g command) h.sees;
        within =
            handle_request_respects K R command g.block_size_bytes e h.same_geometry h.valid.sorted
              h.within;
      }

  -- After a request on an engine of which a client saw `v`: the client sees its effect, or the engine
  -- was disconnected before it, and the response is an error.
  abbrev pub Took : NbdRequest → Volume → BridgeResponse → BridgeQueue (caching_engine T K) → Type 0
  Took q v r queue =
      ((queue.running ≡ true) × Holds (effects g (commands (q ∷ [])) v) queue.engine)
      ⊎ (IsFailure r
          × (queue.running ≡ false)
          × (e : Engine T) × Holds v e
          × (queue.engine ≡ ((caching_engine T K).disconnect e).1))

  asked_continues :
      (q : NbdRequest) (command : BridgeCommand) (e : Engine T)
      → asked q ≡ some command
      → (handle_request (caching_engine T K) g.block_size_bytes command e).1 ≡ false
  asked_continues q (read o n) e a = read_continues (caching_engine T K) g.block_size_bytes o n e
  asked_continues q (write o b) e a = write_continues (caching_engine T K) g.block_size_bytes o b e
  asked_continues q flush e a = flush_continues (caching_engine T K) g.block_size_bytes e
  asked_continues q disconnect e a = absurd (ground (arith, a))

  effects_of_asked :
      (q : NbdRequest) {command : BridgeCommand} (v : Volume)
      → asked q ≡ some command
      → effects g (commands (q ∷ [])) v ≡ effect g command v
  effects_of_asked q v a = rw (a, commands) refl

  effects_of_unknown :
      (q : NbdRequest) (v : Volume) → asked q ≡ none → effects g (commands (q ∷ [])) v ≡ v
  effects_of_unknown q v a = rw (a, commands) refl

  module _ (closed dropped : String) (show_io : IoError → String) where
    abbrev C : Setting
    C = over_engine S K g closed dropped show_io

    module _ (queue : BridgeQueue (caching_engine T K)) (running : queue.running ≡ true)
        (v : Volume) (h : Holds v queue.engine) where
      -- The request changes nothing.
      unchanged :
          (q : NbdRequest) (r : BridgeResponse) (after : BridgeQueue (caching_engine T K))
          → effects g (commands (q ∷ [])) v ≡ v
          → after ≡ queue
          → Took q v r after
      unchanged q r after none_seen same =
          subst (Took q v r) (sym same)
            (inl (running, subst (λ u. Holds u queue.engine) (sym none_seen) h))

      request-Took :
          (q : NbdRequest) (command : BridgeCommand) (c : Bool) (r : BridgeResponse)
          → asked q ≡ some command
          → let (response, after) = bridged C c command queue in
            (r.error_number ≡ 0 → response.error_number ≡ 0) → Took q v r after
      unfolding request
      request-Took q command c r a honest = elim (Bool-cases c) [
        | inl k ↦
            rw (running, k, request)
              (inr ((λ z. interrupted k (honest z)), refl, queue.engine, h, refl))
        | inr k ↦
            let e' =
              (handle_request (caching_engine T K) g.block_size_bytes command queue.engine).2 in
            rw (running, k, asked_continues q command queue.engine a, request)
              (inl (
                refl,
                subst (λ u. Holds u e') (sym (effects_of_asked q v a))
                    (handled-Holds command v queue.engine h),
              ))
      ]
        where
          interrupted : c ≡ true → (bridged C c command queue).0.error_number ≡ 0 → ⊥
          interrupted k z = ground (arith, k, running, z)

      Taken-Took :
          (q : NbdRequest) (c : Bool) (after : BridgeQueue (caching_engine T K))
          (r : BridgeResponse)
          → Taken C q c queue after r
          → Took q v r after
      Taken-Took q c after r (passed_on {command} a same honest) =
          subst (Took q v r) (sym same) (request-Took q command c r a honest)
      Taken-Took q c after r (refused_read a same e) =
          unchanged q r after (effects_of_asked q v a) same
      Taken-Took q c after r (refused_write {offset} {bytes} a refused same e) =
          let outside =
            refused-accepts g offset (length bytes) (subst IsSized h.same_geometry h.valid.sized)
              refused in
          unchanged q r after (effects_of_asked q v a ∙ rw outside refl) same
      Taken-Took q c after r (unknown a same e) =
          unchanged q r after (effects_of_unknown q v a) same

    -- A bridge that takes no more requests answers each with an error.
    closed-Failed :
        (q : NbdRequest) (c : Bool) (queue after : BridgeQueue (caching_engine T K))
        (r : BridgeResponse)
        → queue.running ≡ false
        → Taken C q c queue after r
        → (after ≡ queue) × IsFailure r
    unfolding request
    closed-Failed q c queue after r over (passed_on a same honest) =
        (same ∙ ground (arith, over), λ z. let answered = honest z in ground (arith, over))
    closed-Failed q c queue after r over (refused_read a same e) = (same, λ z. ground (arith, e))
    closed-Failed q c queue after r over (refused_write a refused same e) =
        (same, λ z. ground (arith, e))
    closed-Failed q c queue after r over (unknown a same e) = (same, λ z. ground (arith, e))

    pub Stands-Took :
        (q : NbdRequest) (c : Bool) (v : Volume) (queue after : BridgeQueue (caching_engine T K))
        (r : BridgeResponse)
        → Stands v queue
        → Taken C q c queue after r
        → Took q v r after × (queue.running ≡ false → after.running ≡ false)
    Stands-Took q c v queue after r (inl (running, h)) t =
        (Taken-Took queue running v h q c after r t, λ over. cc)
    Stands-Took q c v queue after r (inr (over, e, h, last)) t =
        let (same, fails) = closed-Failed q c queue after r over t in
        let over' : after.running ≡ false = ap (λ u. u.running) same ∙ over in
        (inr (fails, over', e, h, ap (λ u. u.engine) same ∙ last), λ _. over')

    -- The disconnect at the end.
    pub ask-disconnected :
        (c : Bool) (v : Volume) (s : Server C)
        → Stands v s.queue
        → ((ask C c disconnect s).1.queue.running ≡ false)
          × (e : Engine T) × Holds v e
          × ((ask C c disconnect s).1.queue.engine ≡ ((caching_engine T K).disconnect e).1)
    unfolding ask request handle_request
    ask-disconnected c v s (inl (running, h)) = elim (Bool-cases c) [
      | inl k ↦ rw (running, k, request) (refl, s.queue.engine, h, refl)
      | inr k ↦ rw (running, k, request) (refl, s.queue.engine, h, refl)
    ]
    ask-disconnected c v s (inr (over, e, h, last)) = rw (over, request) (refl, e, h, last)
