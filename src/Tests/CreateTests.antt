-- ===== src/Tests/CreateTests.antt =====
-- The command `create-volume` at a concrete input.
use text.Mathlib.TextPositions.{len-append, starts_with-append}
use temporal_nbd.Prelude.{show, ◌<>◌, arith, ℕ, ◌≡◌, ◌≤◌, ◌<◌, refl, true, false, none, some, ok}
use temporal_nbd.Session.Service.{answered}
use temporal_nbd.Create.{
  CreateVolumeConfig, CreateService, created, judge_reply, send_create, run_create_volume,
  normalize_endpoint,
}
use temporal_nbd.Scenarios.CreateRuns.{
  normalize_endpoint_adds_http_when_missing, normalize_endpoint_keeps_existing_scheme,
  default_request_id_has_expected_prefix,
}
use temporal_nbd.Create.Laws.{Confirms, reply_to_create, run_create_volume-Confirms}

-- A service that confirms every request.
abbrev create_service : CreateService
create_service = record {
  State = ℕ;
  Client = Unit {0};
  show_code = λ c. "code";
  is_endpoint = λ url. true;
  connect = λ url a b w. (some tt, w);
  create_volume = λ limit client namespace volume_id size block_size request_id w.
      (answered (record { volume_id = volume_id; run_id = "run-1" }), w);
  process_id = λ w. 7;
  nanos_since_epoch = λ w. w;
}

abbrev create_config : CreateVolumeConfig
create_config = record {
  frontend_endpoint = "127.0.0.1:7233";
  namespace = "default";
  volume_id = "vol";
  size_bytes = 4096;
  block_size_bytes = 512;
  connect_timeout = 5_000_000_000;
  rpc_timeout = 30_000_000_000;
  request_id = none;
  if_not_exists = false;
}

volume_created : (run_create_volume create_service create_config 1).0 ≡ ok (created "run-1")
unfolding run_create_volume send_create judge_reply
volume_created = refl

run_create_volume-Confirms_example :
    (0 < 4096)
    × (create_service.is_endpoint (normalize_endpoint "127.0.0.1:7233") ≡ true)
    × (4096 ≤ 9_223_372_036_854_775_807)
    × (512 ≤ 2_147_483_647)
    × (client : Unit {0}) × (some tt ≡ some client)
    × Confirms create_service create_config
        (created "run-1")
        (reply_to_create create_service create_config client 1)
run_create_volume-Confirms_example =
    run_create_volume-Confirms create_service create_config 1 (created "run-1") volume_created

adds_http_passes : normalize_endpoint_adds_http_when_missing ≡ true
unfolding normalize_endpoint_adds_http_when_missing
adds_http_passes = refl

keeps_scheme_passes : normalize_endpoint_keeps_existing_scheme ≡ true
unfolding normalize_endpoint_keeps_existing_scheme
keeps_scheme_passes = refl

-- Whatever the number of the process and the time are.
prefix_passes :
    (W : CreateService) (w : W.State) → default_request_id_has_expected_prefix W w ≡ true
unfolding default_request_id_has_expected_prefix
prefix_passes W w =
    let nanos = show (W.nanos_since_epoch w) in
    let rest = show (W.process_id w) <> ("-" <> nanos) in
    let whole = len-append "temporal-nbd-create-" rest in
    let parts = len-append (show (W.process_id w)) ("-" <> nanos) in
    let dash = len-append "-" nanos in
    rw (starts_with-append "temporal-nbd-create-" rest) (ground (arith, whole, parts, dash))
