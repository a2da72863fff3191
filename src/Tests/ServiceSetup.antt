-- ===== src/Tests/ServiceSetup.antt =====
-- A service for the session's theorems: the volume of a `MockTransport`, which refuses or lets time
-- out what that fails, and counts the requests.
use temporal_nbd.Prelude.{
  length, pos, ℕ, suc, ◌+◌, ◌-◌, ◌*◌, ◌/◌, ◌≡◌, refl, max, leb, [], ◌∷◌, arith, ok, err, Result,
  String,
}
use temporal_nbd.Errors.{TransportError, retryable, terminal}
use temporal_nbd.Transport.Mock.{MockTransport, read_blocks, write_batch}
use temporal_nbd.Transport.Mock.Laws.{mock_store}
use temporal_nbd.Session.Backoff.{Floats, RetryConfig}
use temporal_nbd.Session.Service.{
  Service, Reply, answered, refused, timed_out, other_code, VolumeSessionConfig, Session,
}
use temporal_nbd.Session.Opening.{new_session}
use temporal_nbd.Session.Volume.{VolumeService}
use temporal_nbd.Session.Meter.{Meter}
use temporal_nbd.Tests.Setup.{geometry, transport, transport-IsSound}

-- Numbers of thousandths.
abbrev pub thousandths : Floats
thousandths = record {
  F64 = ℕ;
  zero_f64 = 0;
  one_f64 = 1000;
  milli_f64 = 1;
  fifth_f64 = 200;
  add_f64 = λ a b. a + b;
  sub_f64 = λ a b. a - b;
  mul_f64 = λ a b. a * b / 1000;
  max_f64 = max;
  le_f64 = leb;
  as_secs_f64 = λ d. d / 1_000_000;
  from_secs_f64 = λ d. d * 1_000_000;
}

-- The volume, the number of requests so far, and the writes of the longest batch.
pub record World : Type 0 where
  pub volume : MockTransport
  pub received : ℕ
  pub longest : ℕ

abbrev pub reply : {A : Type 0} → Result A TransportError → Reply A
reply (ok a) = answered a
reply (err (retryable message)) = timed_out
reply (err (terminal message)) = refused (record { code = other_code 13; message = message })

abbrev pub service : Service
service = record {
  floats = thousandths;
  State = World;
  Client = Unit {0};
  show_code = λ c. "code";
  sleep = λ d w. w;
  gen_range = λ low high w. (high, w);
  connect = λ url a b w. (ok tt, w);
  open_volume = λ limit client namespace volume_id w. (
    answered (record { volume_id = volume_id; size_bytes = pos 64; block_size_bytes = pos 4 }),
    record w { received = suc w.received },
  );
  read_blocks = λ limit client namespace volume_id start count w.
      let out = read_blocks start count w.volume in
      (reply out.0, record { volume = out.1; received = suc w.received; longest = w.longest });
  write_batch = λ limit client namespace volume_id ws w.
      let out = write_batch ws w.volume in
      (
        reply out.0,
        record { volume = out.1; received = suc w.received; longest = max w.longest (length ws) },
      );
}

pub reply-answered :
    {A : Type 0} (r : Result A TransportError) {a : A} → reply r ≡ answered a → r ≡ ok a
reply-answered (ok x) h = cc
reply-answered (err (retryable m)) h = cc
reply-answered (err (terminal m)) h = cc

unfoldable pub service_volume :
    (namespace volume_id : String) → VolumeService service namespace volume_id 4
service_volume namespace volume_id = record {
  IsSound = λ w. (mock_store 4).IsSound w.volume;
  contents = λ w. (mock_store 4).contents w.volume;
  length-contents = λ w lba h. (mock_store 4).length-contents w.volume lba h;
  sleep_keeps = λ d w h. (h, λ lba. refl);
  gen_range_keeps = λ low high w h. (h, λ lba. refl);
  connect_keeps = λ url a b w h. (h, λ lba. refl);
  open_keeps = λ limit client w h. (h, λ lba. refl);
  open_answer = λ limit client w h e. cc;
  read_keeps = λ limit client start count w h. (
    (mock_store 4).read-IsSound start count w.volume h,
    λ lba. (mock_store 4).read_keeps start count lba w.volume h,
  );
  read_answer = λ limit client start count w h e.
      (mock_store 4).read_answer start count w.volume h (reply-answered _ e);
  write_keeps = λ limit client ws w h a. (
    (mock_store 4).write-IsSound ws w.volume h a,
    λ lba m. (mock_store 4).write_misses ws lba w.volume h a m,
  );
  write_answer = λ limit client ws lba w h a e.
      (mock_store 4).write_stores ws lba w.volume h a (reply-answered _ e);
}

pub service_meter : Meter service
service_meter = record {
  requests = λ w. w.received;
  sleep_free = λ d w. omega arith;
  gen_range_free = λ low high w. omega arith;
  connect_free = λ url a b w. omega arith;
  read_counts = λ limit client namespace volume_id start count w. omega arith;
  write_counts = λ limit client namespace volume_id ws w. omega arith;
}

abbrev pub retries : RetryConfig thousandths
retries = record {
  max_attempts = 3;
  initial_backoff = 150_000_000;
  max_backoff = 2_000_000_000;
  jitter_ratio = 200;
}

abbrev pub session_config : VolumeSessionConfig service
session_config = record {
  frontend_endpoint = "127.0.0.1:7233";
  namespace = "default";
  volume_id = "vol";
  connect_timeout = 5_000_000_000;
  rpc_timeout = 30_000_000_000;
  retry_config = retries;
}

-- The volume lets the first batch time out.
abbrev pub world : World
world = record {
  volume = record transport { fail_writes = retryable "busy" ∷ [] };
  received = 0;
  longest = 0;
}

abbrev pub session : Session service
session = (new_session service session_config "http://127.0.0.1:7233" tt geometry, world)

pub world-IsSound : (service_volume "default" "vol").IsSound world
unfolding service_volume mock_store
world-IsSound = transport-IsSound
