-- ===== src/Attach/Laws.antt =====
-- From the attachment to the detachment: what the volume holds in the end.
use mathlib.Core.Path.{fun_ext}
use temporal_nbd.Prelude.{
  Bool-cases, ◌++◌, ℕ, ◌≡◌, refl, sym, ap, subst, ◌∙◌, inl, inr, ◌⊎◌, true, none, some, ok,
  Result-cases, arith, String, [], List, All,
}
use temporal_nbd.BTree.{lookup}
use temporal_nbd.Transport.{Bytes, Volume}
use temporal_nbd.Transport.Laws.{BlockStore}
use temporal_nbd.Engine.State.{Engine}
use temporal_nbd.Engine.Flushing.{Clock}
use temporal_nbd.Engine.View.{view}
use temporal_nbd.Bridge.Spec.{effects, Step-effect}
use temporal_nbd.Session.Service.{Service, Session, VolumeSession}
use temporal_nbd.Session.Opening.{connect_and_open}
use temporal_nbd.Session.Requests.{session_transport}
use temporal_nbd.Session.Volume.{VolumeService}
use temporal_nbd.Session.Store.{session_store}
use temporal_nbd.Session.OpeningLaws.{connect_and_open-IsValid}
use temporal_nbd.Nbd.Wire.{unexpected_eof}
use temporal_nbd.Nbd.Device.{preflight}
use temporal_nbd.Nbd.Server.{stop, Turn, Setting, Server, serve_blocking}
use temporal_nbd.Nbd.Termination.{serve_blocking_stops}
use temporal_nbd.Nbd.Exchange.{
  Farewell, NbdRequest, IsRequest, all_sent, commands, Exchanges-effects,
}
use temporal_nbd.Nbd.Rounds.{undisturbed}
use temporal_nbd.Nbd.Requests.{IsReady}
use temporal_nbd.Engine.Settled.{bare}
use temporal_nbd.Nbd.Conversation.{serve_blocking_converses}
use temporal_nbd.Nbd.Serve.{Kernel, NbdConfig, serve, serve_device}
use temporal_nbd.Attach.{
  AttachConfig, Outside, wait_for_shutdown_signal, wakeup, Wakeup, nbd_ended, signalled, no_handler,
  engine_config, session_config, attach_setting, attached_engine, end_engine_task, run_tasks,
  run_attach,
}

module _ (K : Kernel) (C : Setting) where
  -- Where `serve_blocking` succeeds, its loop has run.
  serve_runs :
      (config : NbdConfig) (turns : ℕ → Turn) (server : Server C) (k : K.State)
      → (serve K C config turns server k).0 ≡ ok tt
      → (serve K C config turns server k).1 ≡ (serve_blocking C turns server).1
  unfolding serve serve_device
  serve_runs config turns server k h = ground arith

pub Wakeup-cases :
    (W : Service) (x : Wakeup W)
    → ((x ≡ nbd_ended) ⊎ (x ≡ signalled)) ⊎ ((m : String) × (x ≡ no_handler m))
Wakeup-cases W nbd_ended = inl (inl refl)
Wakeup-cases W signalled = inl (inr refl)
Wakeup-cases W (no_handler m) = inr (m, refl)

-- Handlers for both signals can be installed.
abbrev pub HandlersInstall : (W : Service) → Outside W → Type 0
HandlersInstall W out =
    (out.signals.interrupt_installs ≡ true) × (out.signals.terminate_installs ≡ true)

-- Then the end of the server or a signal wakes the command.
pub wakes_up :
    (W : Service) (out : Outside W)
    → HandlersInstall W out
    → (wakeup W out ≡ nbd_ended) ⊎ (wakeup W out ≡ signalled)
unfolding wakeup wait_for_shutdown_signal
wakes_up W out (p, q) = elim (Bool-cases out.nbd_first) [
  | inl n ↦ inl (ground arith)
  | inr n ↦ elim (Bool-cases out.signals.interrupt_first) [
    | inl i ↦ inr (rw (p, q, n, i) refl)
    | inr i ↦ inr (rw (p, q, n, i) refl)
  ]
]

module _ (W : Service) (T : Clock (session_transport W)) (K : Kernel) (config : AttachConfig W)
    (out : Outside W) where
  -- The server as the device's client finds it.
  abbrev pub attached_server :
      (session : VolumeSession W) → W.State → Server (attach_setting W T K out session)
  attached_server session w = record {
    stream = out.stream;
    queue = record { engine = attached_engine W T K config session w; running = true };
  }

  pub ended_engine :
      (C : Setting) (turns : ℕ → Turn) (server : Server C)
      → end_engine_task W T K C (serve_blocking C turns server).1.queue
        ≡ (serve_blocking C turns server).1.queue.engine
  unfolding end_engine_task
  ended_engine C turns server = rw ((serve_blocking_stops C turns server).1, end_engine_task) refl

  run_tasks_engine :
      (session : VolumeSession W) (w : W.State) (k : K.State)
      → (run_tasks W T K config out session w k).0 ≡ ok tt
      → (run_tasks W T K config out session w k).1
        ≡ some
            (serve_blocking
              (attach_setting W T K out session)
              out.turns
              (attached_server session w)).1.queue.engine
  unfolding run_tasks
  run_tasks_engine session w k h =
      let C = attach_setting W T K out session in
      let nbd : NbdConfig = record {
        device_path = config.device_path;
        timeout_secs = config.nbd_timeout_secs;
      } in
      let ended = serve K C nbd out.turns (attached_server session w) k in
      let runs = serve_runs K C nbd out.turns (attached_server session w) k in
      let engine = ended_engine C out.turns (attached_server session w) in
      let found = λ (answer : ended.0 ≡ ok tt).
        ap (λ s. some (end_engine_task W T K C s.queue)) (runs answer) ∙ ap some engine in
      elim (Wakeup-cases W (wakeup W out)) [
        | inl (inl p) ↦ rw (p, run_tasks) (found (rw (p, run_tasks) at h))
        | inl (inr p) ↦ rw (p, run_tasks) (found (rw (p, run_tasks) at h))
        | inr (m, p) ↦ ground (arith, p, h)
      ]

module _ {W : Service} (T : Clock (session_transport W)) (K : Kernel) (config : AttachConfig W)
    (out : Outside W) {block_size : ℕ}
    (V : VolumeService W config.namespace config.volume_id block_size) where
  abbrev S : BlockStore (session_transport W) block_size
  S = session_store (session_config W config) V

  -- The device's client sends these requests and closes or disconnects, its socket takes all writes, and no token
  -- is cancelled while it is served.
  pub record IsCalm (qs : List NbdRequest) : Type 0 where
    pub all_requests : All IsRequest qs
    pub farewell : Bytes
    pub leaves : Farewell farewell
    pub sent : out.stream.incoming ≡ all_sent qs ++ farewell
    pub closes : out.stream.ending ≡ unexpected_eof
    pub writable : out.stream.write_errors ≡ []
    pub undisturbed_turns : out.turns ≡ (λ n. undisturbed)

  -- The engine holds the effects of the requests: a client of it sees them, and so does the service
  -- wherever no block is left in the cache.
  abbrev pub HasEffects :
      VolumeSession W → Volume → List NbdRequest → Engine (session_transport W) → Type 0
  HasEffects session v qs e =
      ((lba : ℕ) → view S e lba ≡ effects session.geometry (commands qs) v lba)
      × ((lba : ℕ)
          → lookup lba e.dirty ≡ none
          → V.contents e.transport.1 lba ≡ effects session.geometry (commands qs) v lba)

  session_contents : (state : Session W) (lba : ℕ) → S.contents state lba ≡ V.contents state.1 lba
  unfolding session_store
  session_contents state lba = refl

  pub served_effects :
      (qs : List NbdRequest) (session : VolumeSession W) (w : W.State)
      → V.IsSound w
      → IsCalm qs
      → (connect_and_open W (session_config W config) w).0 ≡ ok session
      → let w' = (connect_and_open W (session_config W config) w).1 in
        let (flow, server) =
          serve_blocking
            (attach_setting W T K out session)
            out.turns
            (attached_server W T K config out session w') in
        (flow ≡ stop) × HasEffects session (V.contents w) qs server.queue.engine
  served_effects qs session w sound calm opened =
      let w' = (connect_and_open W (session_config W config) w).1 in
      let server = attached_server W T K config out session w' in
      let valid =
        connect_and_open-IsValid (session_config W config) V w session (engine_config W config)
          sound opened in
      let g = session.geometry in
      let ready : IsReady S T g out.closed out.dropped out.show_io server = record {
        valid = valid.0;
        same_geometry = refl;
        running = refl;
        writable = calm.writable;
        closes = calm.closes;
      } in
      let (stops, d, replies, r, exchanges, outgoing, last) =
        serve_blocking_converses S T g out.closed out.dropped out.show_io qs calm.farewell server
          ready calm.all_requests calm.leaves calm.sent in
      let started : view S (attached_engine W T K config session w') ≡ V.contents w =
        fun_ext valid.1 in
      let e : Engine (session_transport W) =
        (serve_blocking (attach_setting W T K out session) (λ n. undisturbed)
          server).1.queue.engine in
      let sees : view S e ≡ effects g (commands qs) (V.contents w) =
        Step-effect last ∙ Exchanges-effects exchanges ∙ ap (effects g (commands qs)) started in
      subst
        (λ turns.
          let (flow, server') = serve_blocking (attach_setting W T K out session) turns server in
          (flow ≡ stop) × HasEffects session (V.contents w) qs server'.queue.engine)
        (sym calm.undisturbed_turns)
        (
          stops,
          (
            (λ lba. ap (λ u. u lba) sees),
            λ lba absent.
                sym (session_contents e.transport lba)
                ∙ sym (bare S e lba absent)
                ∙ ap (λ u. u lba) sees,
          ),
        )

  -- The requests of a client of the device reach the volume. For a service that keeps a volume as
  -- `VolumeService` says, and a client that sends requests and closes or disconnects undisturbed, with a socket
  -- that takes all writes: where `run_attach` succeeds, an engine was started on the volume that was
  -- opened, and in its last state a client of it sees the effects of exactly the accepted writes, in
  -- order, over the volume as it was before; the service's volume has them at every address whose
  -- block is not left in the cache.
  pub run_attach_stores :
      (qs : List NbdRequest) (w : W.State) (k : K.State)
      → V.IsSound w
      → IsCalm qs
      → (run_attach W T K config out w k).0 ≡ ok tt
      → let (answer, engine, w', k') = run_attach W T K config out w k in
        (session : VolumeSession W) × (e : Engine (session_transport W)) × ((connect_and_open W
            (session_config W config)
            w).0
          ≡ ok session)
        × (engine ≡ some e)
        × HasEffects session (V.contents w) qs e
  unfolding run_attach
  run_attach_stores qs w k sound calm h =
      let w' = (connect_and_open W (session_config W config) w).1 in
      elim (Result-cases (preflight out.exists config.device_path)) [
        | inr (m, p) ↦ absurd (ground (arith, p, h))
        | inl (u, p) ↦ elim (Result-cases (connect_and_open W (session_config W config) w).0) [
          | inr (x, q) ↦ absurd (ground (arith, p, q, h))
          | inl (session, q) ↦
              let done : (run_tasks W T K config out session w' k).0 ≡ ok tt =
                rw (p, q, run_attach) at h in
              (
                session,
                (serve_blocking (attach_setting W T K out session) out.turns
                    (attached_server W T K config out session w')).1.queue.engine,
                q,
                rw (p, q, run_attach) (run_tasks_engine W T K config out session w' k done),
                (served_effects qs session w sound calm q).1,
              )
        ]
      ]
