-- ===== src/Tests/AttachTests.antt =====
-- An attachment of the device, at concrete inputs.
use temporal_nbd.Prelude.{
  ℕ, suc, ◌+◌, ◌*◌, ◌≡◌, refl, true, none, some, List, [], ◌∷◌, ◌++◌, ok, arith,
}
use temporal_nbd.Engine.State.{Engine}
use temporal_nbd.Engine.Flushing.{Clock}
use temporal_nbd.Session.Service.{VolumeSession}
use temporal_nbd.Session.Opening.{connect_and_open, opened_geometry, new_session}
use temporal_nbd.Session.Requests.{session_transport}
use temporal_nbd.Nbd.Wire.{RequestHeader, unexpected_eof}
use temporal_nbd.Nbd.WireLaws.{IsHeader, request_bytes}
use temporal_nbd.Nbd.Exchange.{leaving, NbdRequest, all_sent}
use temporal_nbd.Nbd.Rounds.{undisturbed}
use temporal_nbd.Nbd.Serve.{Kernel}
use temporal_nbd.Attach.{session_config, AttachConfig, Outside, run_attach}
use temporal_nbd.Attach.Laws.{IsCalm, HasEffects, run_attach_stores}
use temporal_nbd.Attach.Success.{IsWorking}
use temporal_nbd.Attach.Outcome.{run_attach_succeeds}
use temporal_nbd.Geometry
use temporal_nbd.Tests.Setup.{geometry, payload, tick}
use temporal_nbd.Tests.ServiceSetup.{service, world, world-IsSound, service_volume}
use temporal_nbd.Tests.ConversationTests.{ask_for, ask_for-IsRequest, show_io}

-- A kernel that does what it is asked, and counts the calls on the device.
abbrev pub kernel : Kernel
kernel = record {
  State = ℕ;
  open_device = λ path k. (some 3, k);
  socket_pair = λ k. (some 4, k);
  ioctl = λ fd request argument k. (none, suc k);
  dup = λ fd k. (some 5, k);
  join_do_it = λ k. (some none, k);
  show_os_error = λ errno. "error";
}

abbrev pub config : AttachConfig service
config = record {
  frontend_endpoint = "127.0.0.1:7233";
  namespace = "default";
  volume_id = "vol";
  device_path = "/dev/nbd0";
  connect_timeout = 5_000_000_000;
  rpc_timeout = 5_000_000_000;
  retry_max_attempts = 3;
  retry_initial_backoff = 150_000_000;
  retry_max_backoff = 2_000_000_000;
  retry_jitter_ratio = 200;
  dirty_high_watermark_blocks = 4096;
  flush_retry_deadline = 20_000_000_000;
  flush_retry_interval = 200_000_000;
  request_queue_capacity = 1024;
  nbd_timeout_secs = 30;
}

-- The kernel's client disconnects in the end.
abbrev pub disc_header : RequestHeader
disc_header = record {
  cmd_type = 2;
  handle = 0 ∷ 0 ∷ 0 ∷ 0 ∷ 0 ∷ 0 ∷ 0 ∷ 0 ∷ [];
  offset_bytes = 0;
  length_bytes = 0;
}

pub disc_header-IsHeader : IsHeader disc_header
disc_header-IsHeader = record {
  cmd_bound = omega arith;
  handle_length = refl;
  offset_bound = omega arith;
  length_bound = omega arith;
}

abbrev pub requests : List NbdRequest
requests = ask_for 1 20 payload 8 ∷ []

abbrev pub outside : Outside service
outside = record {
  exists = λ path. true;
  stream = record {
    incoming = all_sent requests ++ request_bytes disc_header;
    ending = unexpected_eof;
    outgoing = [];
    write_errors = [];
  };
  turns = λ n. undisturbed;
  nbd_first = true;
  signals = record { interrupt_installs = true; terminate_installs = true; interrupt_first = true };
  closed = "channel closed";
  dropped = "channel closed";
  show_io = show_io;
}

abbrev pub session_clock : Clock (session_transport service)
session_clock = record { elapsed = λ s i. (i + 1) * 1_000_000; progress = λ s i. tick i }

abbrev pub session : VolumeSession service
session = new_session service (session_config service config) "http://127.0.0.1:7233" tt geometry

pub opened : (connect_and_open service (session_config service config) world).0 ≡ ok session
unfolding connect_and_open opened_geometry Geometry.new
opened = refl

pub kernel-IsWorking : IsWorking kernel
kernel-IsWorking = record {
  opens = λ path k. (3, refl);
  pairs = λ k. (4, refl);
  controls = λ fd request argument k. refl;
  dups = λ fd k. (5, refl);
  joins = λ k. refl;
}

pub calm : IsCalm session_clock kernel config outside (service_volume "default" "vol") requests
calm = record {
  all_requests = (
    ask_for-IsRequest 1 20 payload 8 (omega arith, (λ h. omega arith), omega arith, omega arith)
        refl,
    tt,
  );
  farewell = request_bytes disc_header;
  leaves = leaving disc_header [] disc_header-IsHeader refl refl;
  sent = refl;
  closes = refl;
  writable = refl;
  undisturbed_turns = refl;
}

run_attach_succeeds_example :
    (run_attach service session_clock kernel config outside world 0).0 ≡ ok tt
run_attach_succeeds_example =
    run_attach_succeeds session_clock kernel config outside (service_volume "default" "vol")
      requests session world 0 kernel-IsWorking refl world-IsSound opened (refl, refl) calm

attached : (run_attach service session_clock kernel config outside world 0).0 ≡ ok tt
attached =
    run_attach_succeeds session_clock kernel config outside (service_volume "default" "vol")
      requests session world 0 kernel-IsWorking refl world-IsSound opened (refl, refl) calm

run_attach_stores_example :
    let (answer, engine, w', k') = run_attach service session_clock kernel config outside world 0 in
    (s : VolumeSession service) × (e : Engine (session_transport service)) × ((connect_and_open
        service
        (session_config service config)
        world).0
      ≡ ok s)
    × (engine ≡ some e)
    × HasEffects session_clock kernel config outside
        (service_volume "default" "vol")
        s
        ((service_volume "default" "vol").contents world)
        requests
        e
run_attach_stores_example =
    run_attach_stores session_clock kernel config outside (service_volume "default" "vol") requests
      world 0 world-IsSound calm attached
