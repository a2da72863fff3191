-- ===== src/Attach/Outcome.antt =====
-- An attachment ends well for a client that behaves.
use temporal_nbd.Prelude.{ℕ, ◌≡◌, ok, List, inl, inr}
use temporal_nbd.Engine.Flushing.{Clock}
use temporal_nbd.Session.Service.{Service, VolumeSession}
use temporal_nbd.Session.Opening.{connect_and_open}
use temporal_nbd.Session.Requests.{session_transport}
use temporal_nbd.Session.Volume.{VolumeService}
use temporal_nbd.Nbd.Device.{preflight}
use temporal_nbd.Nbd.Exchange.{NbdRequest}
use temporal_nbd.Nbd.Serve.{Kernel, NbdConfig}
use temporal_nbd.Attach.{
  AttachConfig, Outside, session_config, attach_setting, run_tasks, run_attach,
}
use temporal_nbd.Attach.Laws.{IsCalm, HandlersInstall, wakes_up, attached_server, served_effects}
use temporal_nbd.Attach.Success.{IsWorking, serve_succeeds}

module _ {W : Service} (T : Clock (session_transport W)) (K : Kernel) (config : AttachConfig W)
    (out : Outside W) {block_size : ℕ}
    (V : VolumeService W config.namespace config.volume_id block_size) where
  -- An attachment succeeds: where the device and the module exist, the volume is opened, the calls of
  -- the system on the device succeed and handlers for both signals can be installed, and where the client
  -- sends requests and closes or disconnects undisturbed with a socket that takes all writes, `run_attach` ends
  -- without an error, however often and for how long the service fails the engine's requests.
  pub run_attach_succeeds :
      (qs : List NbdRequest) (session : VolumeSession W) (w : W.State) (k : K.State)
      → IsWorking K
      → preflight out.exists config.device_path ≡ ok tt
      → V.IsSound w
      → (connect_and_open W (session_config W config) w).0 ≡ ok session
      → HandlersInstall W out
      → IsCalm T K config out V qs
      → (run_attach W T K config out w k).0 ≡ ok tt
  unfolding run_attach run_tasks
  run_attach_succeeds qs session w k works exists sound opened handlers calm =
      let w' = (connect_and_open W (session_config W config) w).1 in
      let (stops, effects) = served_effects T K config out V qs session w sound calm opened in
      let nbd : NbdConfig = record {
        device_path = config.device_path;
        timeout_secs = config.nbd_timeout_secs;
      } in
      let served =
        serve_succeeds K works (attach_setting W T K out session) out.turns
          (attached_server W T K config out session w') stops nbd k in
      elim (wakes_up W out handlers) [
        | inl p ↦ rw (exists, opened, p, run_attach, run_tasks) served
        | inr p ↦ rw (exists, opened, p, run_attach, run_tasks) served
      ]
