-- ===== src/Attach/Interruptions.antt =====
-- The attachment whatever fails and whenever it is interrupted: what its last engine has seen.
use temporal_nbd.Prelude.{
  ℕ, ◌≡◌, refl, ap, ◌∙◌, ◌⊎◌, inl, inr, true, some, ok, List, ◌++◌, All, take, arith, Result-cases,
}
use mathlib.Core.Path.{fun_ext}
use temporal_nbd.Transport.{Bytes}
use temporal_nbd.Transport.Laws.{BlockStore}
use temporal_nbd.Engine.State.{Engine}
use temporal_nbd.Engine.Flushing.{Clock}
use temporal_nbd.Engine.Operations.{caching_engine}
use temporal_nbd.Engine.Contract.{Respects}
use temporal_nbd.Bridge.{run_engine_loop, engine_loop}
use temporal_nbd.Bridge.Spec.{effects}
use temporal_nbd.Session.Service.{Service, Session, VolumeSession}
use temporal_nbd.Session.Opening.{connect_and_open}
use temporal_nbd.Session.Requests.{session_transport}
use temporal_nbd.Session.Volume.{VolumeService}
use temporal_nbd.Session.Store.{session_store}
use temporal_nbd.Session.OpeningLaws.{connect_and_open-IsValid}
use temporal_nbd.Nbd.Device.{preflight}
use temporal_nbd.Nbd.Server.{Turn, Setting, Server, serve_blocking}
use temporal_nbd.Nbd.Exchange.{Farewell, NbdRequest, IsRequest, all_sent, commands}
use temporal_nbd.Nbd.Interrupted.{Holds}
use temporal_nbd.Nbd.Prefix.{serve_blocking-Ended}
use temporal_nbd.Nbd.Interruptions.{anything-Respects, disconnected-Holds}
use temporal_nbd.Nbd.Serve.{Kernel, NbdConfig, serve, serve_device}
use temporal_nbd.Attach.{
  AttachConfig, Outside, wakeup, engine_config, session_config, attach_setting, attached_engine,
  end_engine_task, run_tasks, run_attach,
}
use temporal_nbd.Attach.Laws.{Wakeup-cases, attached_server, ended_engine, HasEffects}

module _ (K : Kernel) (C : Setting) where
  -- The server has run, or it is as it was, where the device could not be set up.
  serve-cases :
      (config : NbdConfig) (turns : ℕ → Turn) (server : Server C) (k : K.State)
      → ((serve K C config turns server k).1 ≡ server)
        ⊎ ((serve K C config turns server k).1 ≡ (serve_blocking C turns server).1)
  unfolding serve serve_device
  serve-cases config turns server k = ground arith

module _ {W : Service} (T : Clock (session_transport W)) (K : Kernel) (config : AttachConfig W)
    (out : Outside W) where
  idle_engine :
      (C : Setting) (server : Server C)
      → server.queue.running ≡ true
      → end_engine_task W T K C server.queue ≡ (C.E.disconnect server.queue.engine).1
  unfolding end_engine_task run_engine_loop engine_loop
  idle_engine C server h = rw (h, end_engine_task) refl

  -- The engine that the tasks leave.
  run_tasks_left :
      (session : VolumeSession W) (w : W.State) (k : K.State) (e : Engine (session_transport W))
      → (run_tasks W T K config out session w k).1 ≡ some e
      → let C = attach_setting W T K out session in
        let server = attached_server W T K config out session w in
        (e ≡ ((caching_engine (session_transport W) T).disconnect server.queue.engine).1)
        ⊎ (e ≡ (serve_blocking C out.turns server).1.queue.engine)
  unfolding run_tasks
  run_tasks_left session w k e h =
      let C = attach_setting W T K out session in
      let server = attached_server W T K config out session w in
      let nbd : NbdConfig = record {
        device_path = config.device_path;
        timeout_secs = config.nbd_timeout_secs;
      } in
      let server' = (serve K C nbd out.turns server k).1 in
      let found : some (end_engine_task W T K C server'.queue) ≡ some e
          → (e ≡ ((caching_engine (session_transport W) T).disconnect server.queue.engine).1)
            ⊎ (e ≡ (serve_blocking C out.turns server).1.queue.engine) =
        λ left. elim (serve-cases K C nbd out.turns server k) [
          | inl p ↦
              let same = ap (λ s. some (end_engine_task W T K C s.queue)) p in
              inl (ground (arith, left, same, idle_engine C server refl))
          | inr p ↦
              let same = ap (λ s. some (end_engine_task W T K C s.queue)) p in
              inr (ground (arith, left, same, ended_engine W T K config out C out.turns server))
        ] in
      elim (Wakeup-cases W (wakeup W out)) [
        | inl (inl p) ↦ found (rw (p, run_tasks) at h)
        | inl (inr p) ↦ found (rw (p, run_tasks) at h)
        | inr (m, p) ↦ absurd (ground (arith, p, h))
      ]

module _ {W : Service} (T : Clock (session_transport W)) (K : Kernel) (config : AttachConfig W)
    (out : Outside W) {block_size : ℕ}
    (V : VolumeService W config.namespace config.volume_id block_size) where
  abbrev S : BlockStore (session_transport W) block_size
  S = session_store (session_config W config) V

  -- The device's client sends these requests and closes or disconnects. Its socket may fail.
  pub record IsClient (qs : List NbdRequest) : Type 0 where
    pub all_requests : All IsRequest qs
    pub farewell : Bytes
    pub leaves : Farewell farewell
    pub sent : out.stream.incoming ≡ all_sent qs ++ farewell

  -- The engine that is left was disconnected in a state with the effects of some first requests,
  -- over a session for which `P` holds, if the calls of the engine preserve that.
  pub run_tasks-Holds :
      {P : Session W → Type 0} (R : (total : ℕ) → Respects (session_transport W) total P)
      (qs : List NbdRequest) (session : VolumeSession W) (w : W.State) (k : K.State)
      (e : Engine (session_transport W))
      → let (opened, w') = connect_and_open W (session_config W config) w in
        V.IsSound w
        → IsClient qs
        → opened ≡ ok session
        → P (session, w')
        → (run_tasks W T K config out session w' k).1 ≡ some e
        → let g = session.geometry in
          (n : ℕ) × (last : Engine (session_transport W)) × Holds S T g
            (R g.total_blocks)
            (effects g (commands (take n qs)) (V.contents w))
            last
          × (e ≡ ((caching_engine (session_transport W) T).disconnect last).1)
  run_tasks-Holds {P} R qs session w k e sound client opened p left =
      let w' = (connect_and_open W (session_config W config) w).1 in
      let g = session.geometry in
      let started = attached_engine W T K config session w' in
      let valid =
        connect_and_open-IsValid (session_config W config) V w session (engine_config W config)
          sound opened in
      let holds : Holds S T g (R g.total_blocks) (V.contents w) started = record {
        valid = valid.0;
        same_geometry = refl;
        sees = fun_ext valid.1;
        within = p;
      } in
      elim (run_tasks_left T K config out session w' k e left) [
        | inl idle ↦ (0, started, holds, idle)
        | inr served ↦
            let ended =
              serve_blocking-Ended S T g (R g.total_blocks) out.closed out.dropped out.show_io
                out.turns client.farewell client.leaves qs (V.contents w)
                (attached_server W T K config out session w') client.all_requests client.sent
                (inl (refl, holds)) in
            (ended.count, ended.last, ended.holds, served ∙ ended.disconnected)
      ]

  -- The world at the end is that of the engine that is left.
  pub run_attach-final_world :
      (w : W.State) (k : K.State) (e : Engine (session_transport W))
      → (run_attach W T K config out w k).1 ≡ some e
      → (run_attach W T K config out w k).2 ≡ e.transport.1
  unfolding run_attach
  run_attach-final_world w k e h = elim (Result-cases (preflight out.exists config.device_path)) [
    | inr (m, p) ↦ absurd (ground (arith, p, h))
    | inl (u, p) ↦ elim (Result-cases (connect_and_open W (session_config W config) w).0) [
      | inr (x, q) ↦ absurd (ground (arith, p, q, h))
      | inl (session, q) ↦
          let left = rw (p, q, run_attach) at h in rw (p, q, run_attach) (rw left refl)
    ]
  ]

  -- The engine that `run_attach` leaves is that of its tasks, on the session that was opened.
  pub run_attach_left :
      (w : W.State) (k : K.State) (e : Engine (session_transport W))
      → (run_attach W T K config out w k).1 ≡ some e
      → let (opened, w') = connect_and_open W (session_config W config) w in
        (session : VolumeSession W) × (opened ≡ ok session)
        × ((run_tasks W T K config out session w' k).1 ≡ some e)
  unfolding run_attach
  run_attach_left w k e h = elim (Result-cases (preflight out.exists config.device_path)) [
    | inr (m, p) ↦ absurd (ground (arith, p, h))
    | inl (u, p) ↦ elim (Result-cases (connect_and_open W (session_config W config) w).0) [
      | inr (x, q) ↦ absurd (ground (arith, p, q, h))
      | inl (session, q) ↦ (session, q, rw (p, q, run_attach) at h)
    ]
  ]

  -- However an attachment is interrupted or fails: for a service that keeps a volume as
  -- `VolumeService` says, whatever it fails, and a client that sends requests and closes or
  -- disconnects, wherever `run_attach` leaves an engine, also with an error, there is a number such
  -- that this engine has the effects of exactly that many of the first requests, in order, over the
  -- volume as it was opened: a client of the engine sees them, and the service's volume has them at
  -- every address whose block is not left in the cache.
  pub run_attach_interrupted :
      (qs : List NbdRequest) (w : W.State) (k : K.State) (e : Engine (session_transport W))
      → V.IsSound w
      → IsClient qs
      → (run_attach W T K config out w k).1 ≡ some e
      → (session : VolumeSession W) × ((connect_and_open W (session_config W config) w).0
          ≡ ok session)
        × (n : ℕ) × HasEffects T K config out V session (V.contents w) (take n qs) e
  unfolding session_store
  run_attach_interrupted qs w k e sound client h =
      let (session, opened, left) = run_attach_left w k e h in
      let g = session.geometry in
      let R = λ (total : ℕ). anything-Respects {T = session_transport W} total in
      let (n, last, holds, ends) = run_tasks-Holds R qs session w k e sound client opened tt left in
      let (valid, sees, stored) = disconnected-Holds S T g (R g.total_blocks) last e holds ends in
      (session, opened, n, (sees, stored))
