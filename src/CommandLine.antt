-- ===== src/CommandLine.antt =====
-- src/main.rs: the arguments of the two commands, in the units of the command line, and what the
-- process does with them. The parsing by clap is left out: a command is what it yields.
pub mod Laws
use temporal_nbd.Prelude.{ℕ, ◌*◌, Bool, Option, List, [], ◌∷◌, String, ◌<>◌, Result, ok, err}
use temporal_nbd.Engine.State.{Engine}
use temporal_nbd.Engine.Flushing.{Clock}
use temporal_nbd.Session.Service.{Service}
use temporal_nbd.Session.Requests.{session_transport}
use temporal_nbd.Nbd.Serve.{Kernel}
use temporal_nbd.Create.{
  CreateVolumeConfig, CreateVolumeOutcome, created, existed, CreateService, run_create_volume,
}
use temporal_nbd.Attach.{AttachConfig, Outside, run_attach}

-- `Duration::from_secs` and `Duration::from_millis`, in nanoseconds.
abbrev pub from_secs : ℕ → ℕ
from_secs n = n * 1_000_000_000

abbrev pub from_millis : ℕ → ℕ
from_millis n = n * 1_000_000

pub record CreateVolumeArgs : Type 0 where
  pub frontend_endpoint : String
  pub namespace : String
  pub volume_id : String
  pub size_bytes : ℕ
  pub block_size_bytes : ℕ
  pub connect_timeout_secs : ℕ
  pub rpc_timeout_secs : ℕ
  pub request_id : Option String
  pub if_not_exists : Bool

-- `From<CreateVolumeArgs> for CreateVolumeConfig`
abbrev pub create_config : CreateVolumeArgs → CreateVolumeConfig
create_config args = record {
  frontend_endpoint = args.frontend_endpoint;
  namespace = args.namespace;
  volume_id = args.volume_id;
  size_bytes = args.size_bytes;
  block_size_bytes = args.block_size_bytes;
  connect_timeout = from_secs args.connect_timeout_secs;
  rpc_timeout = from_secs args.rpc_timeout_secs;
  request_id = args.request_id;
  if_not_exists = args.if_not_exists;
}

-- What is printed on each outcome.
abbrev pub created_line : CreateVolumeArgs → String → String
created_line args run_id =
    "created volume '"
    <> (args.volume_id
        <> ("' in namespace '" <> (args.namespace <> ("' (run_id=" <> (run_id <> ")")))))

abbrev pub existed_line : CreateVolumeArgs → String
existed_line args =
    "volume '" <> (args.volume_id <> ("' already exists in namespace '" <> (args.namespace <> "'")))

-- The `match` on the outcome of `create-volume`: the result, the lines that are printed, and the
-- world.
unfoldable pub create_volume_command :
    (W : CreateService)
    → CreateVolumeArgs
    → W.State
    → Result (Unit {0}) String × List String × W.State
create_volume_command W args w =
    let (outcome, w') = run_create_volume W (create_config args) w in
    elim outcome [
      | err x ↦ (err "create-volume failed", [], w')
      | ok (created run_id) ↦ (ok tt, created_line args run_id ∷ [], w')
      | ok existed ↦ (ok tt, existed_line args ∷ [], w')
    ]

module _ (W : Service) where
  pub record AttachArgs : Type 0 where
    pub frontend_endpoint : String
    pub namespace : String
    pub volume_id : String
    pub nbd_device : String
    pub connect_timeout_secs : ℕ
    pub rpc_timeout_secs : ℕ
    pub retry_max_attempts : ℕ
    pub retry_initial_backoff_ms : ℕ
    pub retry_max_backoff_ms : ℕ
    pub retry_jitter_ratio : W.floats.F64
    pub dirty_high_water_blocks : ℕ
    pub flush_retry_deadline_secs : ℕ
    pub flush_retry_interval_ms : ℕ
    pub engine_queue_capacity : ℕ
    pub nbd_timeout_secs : ℕ

  -- `From<AttachArgs> for AttachConfig`
  abbrev pub attach_config : AttachArgs → AttachConfig W
  attach_config args = record {
    frontend_endpoint = args.frontend_endpoint;
    namespace = args.namespace;
    volume_id = args.volume_id;
    device_path = args.nbd_device;
    connect_timeout = from_secs args.connect_timeout_secs;
    rpc_timeout = from_secs args.rpc_timeout_secs;
    retry_max_attempts = args.retry_max_attempts;
    retry_initial_backoff = from_millis args.retry_initial_backoff_ms;
    retry_max_backoff = from_millis args.retry_max_backoff_ms;
    retry_jitter_ratio = args.retry_jitter_ratio;
    dirty_high_watermark_blocks = args.dirty_high_water_blocks;
    flush_retry_deadline = from_secs args.flush_retry_deadline_secs;
    flush_retry_interval = from_millis args.flush_retry_interval_ms;
    request_queue_capacity = args.engine_queue_capacity;
    nbd_timeout_secs = args.nbd_timeout_secs;
  }

  -- The arm of `attach`.
  unfoldable pub attach_command :
      (T : Clock (session_transport W)) (K : Kernel)
      → AttachArgs
      → Outside W
      → W.State
      → K.State
      → Result (Unit {0}) String × Option (Engine (session_transport W)) × W.State × K.State
  attach_command T K args out w k =
      let (answer, engine, w', k') = run_attach W T K (attach_config args) out w k in
      elim answer [
        | ok _ ↦ (ok tt, engine, w', k')
        | err x ↦ (err "attach mode failed", engine, w', k')
      ]
