-- ===== src/Tests/InterruptionTests.antt =====
-- A server and an attachment that are interrupted, and one that is not, at concrete inputs.
use temporal_nbd.Prelude.{true, ℕ, ◌≡◌, refl, false, some, [], ◌∷◌, ok, arith, take, ltb}
use temporal_nbd.Engine.State.{Engine}
use temporal_nbd.Bridge.Spec.{effects}
use temporal_nbd.Session.Service.{VolumeSession}
use temporal_nbd.Session.Opening.{connect_and_open, opened_geometry}
use temporal_nbd.Session.Requests.{session_transport}
use temporal_nbd.Nbd.Wire.{other_error}
use temporal_nbd.Nbd.WireLaws.{request_bytes}
use temporal_nbd.Nbd.Exchange.{leaving, commands}
use temporal_nbd.Nbd.Server.{Turn, serve_blocking}
use temporal_nbd.Nbd.Serve.{serve, serve_device}
use temporal_nbd.Nbd.Device.{configure_device}
use temporal_nbd.Attach.{
  Outside, wakeup, session_config, attach_setting, end_engine_task, run_tasks, run_attach,
}
use temporal_nbd.Attach.Laws.{HasEffects, attached_server}
use temporal_nbd.Attach.Interruptions.{IsClient, run_attach_interrupted}
use temporal_nbd.Attach.Saving.{run_attach_saves}
use temporal_nbd.Geometry
use temporal_nbd.Tests.Setup.{geometry, engine}
use temporal_nbd.Tests.ServiceSetup.{service, world, world-IsSound, service_volume}
use temporal_nbd.Tests.ConversationTests
use temporal_nbd.Tests.OutlastingTests.{flaky}
use temporal_nbd.Tests.AttachTests.{
  kernel, config, disc_header, disc_header-IsHeader, requests, outside, session_clock, session,
  opened, kernel-IsWorking, calm,
}

-- The bridge's token is cancelled when fewer than `k` rounds are left.
abbrev cancelled_below : ℕ → ℕ → Turn
cancelled_below k n = record { shutdown_cancelled = false; engine_cancelled = ltb n k }

-- From the third request on.
abbrev cancelled_late : ℕ → Turn
cancelled_late = cancelled_below 147

-- A signal cancels the token of the bridge, and the socket fails the first reply.
abbrev disturbed : Outside service
disturbed = record outside {
  stream = record outside.stream { write_errors = some (other_error "broken pipe") ∷ [] };
  turns = cancelled_below 64;
  nbd_first = false;
  signals = record {
    interrupt_installs = true;
    terminate_installs = true;
    interrupt_first = false;
  };
}

disturbed-IsClient :
    IsClient session_clock kernel config disturbed (service_volume "default" "vol") requests
disturbed-IsClient = record {
  all_requests = calm.all_requests;
  farewell = request_bytes disc_header;
  leaves = leaving disc_header [] disc_header-IsHeader refl refl;
  sent = refl;
}

abbrev left : Engine (session_transport service)
left =
    let C = attach_setting service session_clock kernel disturbed session in
    let w' = (connect_and_open service (session_config service config) world).1 in
    end_engine_task service session_clock kernel C
      (serve_blocking C (cancelled_below 64)
        (attached_server service session_clock kernel config disturbed session w')).1.queue

left_by_attach : (run_attach service session_clock kernel config disturbed world 0).1 ≡ some left
unfolding run_attach run_tasks serve serve_device configure_device connect_and_open opened_geometry
    Geometry.new wakeup
left_by_attach = refl

run_attach_interrupted_example :
    (s : VolumeSession service) × ((connect_and_open service
        (session_config service config)
        world).0
      ≡ ok s)
    × (n : ℕ) × HasEffects session_clock kernel config disturbed
        (service_volume "default" "vol")
        s
        ((service_volume "default" "vol").contents world)
        (take n requests)
        left
run_attach_interrupted_example =
    run_attach_interrupted session_clock kernel config disturbed (service_volume "default" "vol")
      requests world 0 left world-IsSound disturbed-IsClient left_by_attach

opened-IsBusy : flaky.AtMost 1 (connect_and_open service (session_config service config) world).1
unfolding connect_and_open
opened-IsBusy = (refl, refl)

run_attach_saves_example :
    let (answer, engine, w', k') = run_attach service session_clock kernel config outside world 0 in
    (answer ≡ ok tt)
    × (e : Engine (session_transport service)) × (engine ≡ some e)
    × (e.dirty ≡ [])
    × (w' ≡ e.transport.1)
    × ((lba : ℕ)
        → (service_volume "default" "vol").contents e.transport.1 lba
          ≡ effects session.geometry
              (commands requests)
              ((service_volume "default" "vol").contents world)
              lba)
run_attach_saves_example =
    run_attach_saves session_clock kernel config outside (service_volume "default" "vol") flaky
      session world 0 1 world-IsSound opened (omega arith) opened-IsBusy requests kernel-IsWorking
      refl (refl, refl) calm
