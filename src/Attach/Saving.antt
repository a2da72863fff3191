-- ===== src/Attach/Saving.antt =====
-- Where the service fails less often than a session repeats its requests, an attachment saves all.
use temporal_nbd.Prelude.{ℕ, ◌<◌, ◌≡◌, refl, sym, ap, ◌∙◌, subst, some, ok, List, [], take}
use temporal_nbd.Geometry.{VolumeGeometry}
use temporal_nbd.Transport.{Volume}
use temporal_nbd.Transport.Laws.{BlockStore}
use temporal_nbd.Engine.State.{Engine}
use temporal_nbd.Engine.Flushing.{Clock}
use temporal_nbd.Engine.Operations.{caching_engine}
use temporal_nbd.Engine.Recovery.{flush_recovers}
use temporal_nbd.Engine.Coherence.{disconnect_stores}
use temporal_nbd.Bridge.Spec.{effects}
use temporal_nbd.Session.Backoff.{capped_attempts}
use temporal_nbd.Session.Service.{Service, VolumeSession, VolumeSessionConfig}
use temporal_nbd.Session.Opening.{connect_and_open}
use temporal_nbd.Session.Requests.{session_transport}
use temporal_nbd.Session.Volume.{VolumeService}
use temporal_nbd.Session.Store.{session_store}
use temporal_nbd.Session.OpeningLaws.{connect_and_open-IsValid}
use temporal_nbd.Session.Outlasting.{Flaky}
use temporal_nbd.Session.Lasting.{IsLasting, IsLasting-Respects, never_failing}
use temporal_nbd.Nbd.Device.{preflight}
use temporal_nbd.Nbd.Exchange.{NbdRequest, commands}
use temporal_nbd.Nbd.Interrupted.{Holds}
use temporal_nbd.Nbd.Serve.{Kernel}
use temporal_nbd.Attach.{
  AttachConfig, Outside, engine_config, session_config, run_tasks, run_attach,
}
use temporal_nbd.Attach.Laws.{IsCalm, HandlersInstall, run_attach_stores}
use temporal_nbd.Attach.Success.{IsWorking}
use temporal_nbd.Attach.Outcome.{run_attach_succeeds}
use temporal_nbd.Attach.Interruptions.{
  IsClient, run_attach_left, run_attach-final_world, run_tasks-Holds,
}

module _ {W : Service} (T : Clock (session_transport W)) (K : Kernel) (config : AttachConfig W)
    (out : Outside W) {block_size : ℕ}
    (V : VolumeService W config.namespace config.volume_id block_size) (F : Flaky W) where
  abbrev settings : VolumeSessionConfig W
  settings = session_config W config

  abbrev S : BlockStore (session_transport W) block_size
  S = session_store settings V

  -- A session that lasts: the last disconnect of an engine over it stores all blocks.
  lasting_stores :
      (g : VolumeGeometry) (last : Engine (session_transport W)) {v : Volume}
      → Holds S T g (IsLasting-Respects F settings g.total_blocks) v last
      → let e = ((caching_engine (session_transport W) T).disconnect last).1 in
        (e.dirty ≡ []) × ((lba : ℕ) → V.contents e.transport.1 lba ≡ v lba)
  unfolding session_store
  lasting_stores g last h =
      let flushed =
        flush_recovers (never_failing F settings) S T 0 last h.valid h.within (λ j l. elim l [ ]) in
      let stored = disconnect_stores S T last h.valid flushed.0 in
      (stored.0, λ lba. stored.1 lba ∙ ap (λ u. u lba) h.sees)

  -- The session that was opened has the configuration of the attachment.
  opened_config :
      (session : VolumeSession W) (w : W.State)
      → V.IsSound w
      → (connect_and_open W settings w).0 ≡ ok session
      → session.config ≡ settings
  unfolding session_store
  opened_config session w sound opened =
      (connect_and_open-IsValid settings V w session (engine_config W config) sound
        opened).0.sound.1

  -- What an attachment leaves where the service fails at most `n` of the connections and requests
  -- after the volume is opened, and a session makes more attempts.
  module _ (session : VolumeSession W) (w : W.State) (k : K.State) (n : ℕ) (sound : V.IsSound w)
      (opened : (connect_and_open W settings w).0 ≡ ok session)
      (few : n < capped_attempts settings.retry_config)
      (fails : F.AtMost n (connect_and_open W settings w).1) where
    left_stored :
        (qs : List NbdRequest) (e : Engine (session_transport W))
        → IsClient T K config out V qs
        → (run_tasks W T K config out session (connect_and_open W settings w).1 k).1 ≡ some e
        → (m : ℕ) × (e.dirty ≡ [])
          × ((lba : ℕ)
              → V.contents e.transport.1 lba
                ≡ effects session.geometry (commands (take m qs)) (V.contents w) lba)
    left_stored qs e client left =
        let lasting : IsLasting F settings (session, (connect_and_open W settings w).1) =
          (n, few, (fails, opened_config session w sound opened)) in
        let (m, last, holds, ends) =
          run_tasks-Holds T K config out V (IsLasting-Respects F settings) qs session w k e sound
            client opened lasting left in
        let stored = lasting_stores session.geometry last holds in
        let left_all =
          subst
            (λ e.
              (e.dirty ≡ [])
              × ((lba : ℕ)
                  → V.contents e.transport.1 lba
                    ≡ effects session.geometry (commands (take m qs)) (V.contents w) lba))
            (sym ends) stored in
        (m, left_all.0, left_all.1)

    -- An attachment saves what its client writes. Where the device and the module exist, the volume
    -- is opened, the calls of the system succeed and handlers for both signals can be installed, the client
    -- sends requests and closes or disconnects undisturbed with a socket that takes all writes, and
    -- of the service's connections and requests after the opening fewer fail than a session makes
    -- attempts, each in a way that allows another: then `run_attach` ends without an error, the cache
    -- of its engine is empty, the world at the end is the one behind it, and the service's volume
    -- there is the one before with the effects of all the requests, in order.
    pub run_attach_saves :
        (qs : List NbdRequest)
        → IsWorking K
        → preflight out.exists config.device_path ≡ ok tt
        → HandlersInstall W out
        → IsCalm T K config out V qs
        → let (answer, engine, w', k') = run_attach W T K config out w k in
          (answer ≡ ok tt)
          × (e : Engine (session_transport W)) × (engine ≡ some e)
          × (e.dirty ≡ [])
          × (w' ≡ e.transport.1)
          × ((lba : ℕ)
              → V.contents e.transport.1 lba
                ≡ effects session.geometry (commands qs) (V.contents w) lba)
    run_attach_saves qs works exists handlers calm =
        let done =
          run_attach_succeeds T K config out V qs session w k works exists sound opened handlers
            calm in
        let (session', e, opened', left, has) =
          run_attach_stores T K config out V qs w k sound calm done in
        let client : IsClient T K config out V qs = record {
          all_requests = calm.all_requests;
          farewell = calm.farewell;
          leaves = calm.leaves;
          sent = calm.sent;
        } in
        let (session'', opened'', tasks) = run_attach_left T K config out V w k e left in
        let same : session'' ≡ session = cc in
        let same' : session' ≡ session = cc in
        let (m, empty, stored) = left_stored qs e client (
          subst (λ s. (run_tasks W T K config out s (connect_and_open W settings w).1 k).1 ≡ some e)
            same tasks) in
        (
          done,
          e,
          left,
          empty,
          run_attach-final_world T K config out V w k e left,
          λ lba.
              subst
                (λ s.
                  V.contents e.transport.1 lba
                  ≡ effects s.geometry (commands qs) (V.contents w) lba)
                same' (has.1 lba (rw empty refl)),
        )
