-- ===== src/Attach.antt =====
-- src/attach.rs: the volume is opened, an engine over it is put behind the bridge, and the device is
-- served until its server ends; then the engine is disconnected.
pub mod Laws
pub mod Success
pub mod Outcome
pub mod Interruptions
pub mod Saving
use temporal_nbd.Prelude.{
  ℕ, Bool, not, ◌>>=◌, ◌>>◌, fail_if, Option, true, none, some, String, Result, ok, err, [],
  if◌then◌else◌,
}
use temporal_nbd.Engine.State.{EngineConfig, Engine, new}
use temporal_nbd.Engine.Flushing.{Clock}
use temporal_nbd.Engine.Operations.{caching_engine}
use temporal_nbd.Bridge.{run_engine_loop}
use temporal_nbd.Bridge.Queue.{BridgeQueue}
use temporal_nbd.Session.Service.{Service, VolumeSession, VolumeSessionConfig}
use temporal_nbd.Session.Opening.{connect_and_open}
use temporal_nbd.Session.Requests.{session_transport}
use temporal_nbd.Nbd.Wire.{IoError, UnixStream}
use temporal_nbd.Nbd.Device.{preflight}
use temporal_nbd.Nbd.Server.{Turn, Setting, Server}
use temporal_nbd.Nbd.Serve.{Kernel, serve}

module _ (W : Service) where
  -- The durations in nanoseconds.
  pub record AttachConfig : Type 0 where
    pub frontend_endpoint : String
    pub namespace : String
    pub volume_id : String
    pub device_path : String
    pub connect_timeout : ℕ
    pub rpc_timeout : ℕ
    pub retry_max_attempts : ℕ
    pub retry_initial_backoff : ℕ
    pub retry_max_backoff : ℕ
    pub retry_jitter_ratio : W.floats.F64
    pub dirty_high_watermark_blocks : ℕ
    pub flush_retry_deadline : ℕ
    pub flush_retry_interval : ℕ
    pub request_queue_capacity : ℕ
    pub nbd_timeout_secs : ℕ

  -- The configuration that `run_attach` gives to the session.
  abbrev pub session_config : AttachConfig → VolumeSessionConfig W
  session_config config = record {
    frontend_endpoint = config.frontend_endpoint;
    namespace = config.namespace;
    volume_id = config.volume_id;
    connect_timeout = config.connect_timeout;
    rpc_timeout = config.rpc_timeout;
    retry_config = record {
      max_attempts = config.retry_max_attempts;
      initial_backoff = config.retry_initial_backoff;
      max_backoff = config.retry_max_backoff;
      jitter_ratio = config.retry_jitter_ratio;
    };
  }

  -- The configuration that it gives to the engine.
  abbrev pub engine_config : AttachConfig → EngineConfig
  engine_config config = record {
    dirty_high_watermark_blocks = config.dirty_high_watermark_blocks;
    flush_retry_deadline = config.flush_retry_deadline;
    flush_retry_interval = config.flush_retry_interval;
  }

  -- What wakes the `select!`: the end of the server, or a signal, or that no handler for signals
  -- could be installed.
  pub data Wakeup : Type 0 where
    nbd_ended : Wakeup
    signalled : Wakeup
    no_handler : String → Wakeup

  -- The signals of the process: whether their handlers can be installed, and whether the first that
  -- arrives is SIGINT.
  pub record Signals : Type 0 where
    pub interrupt_installs : Bool
    pub terminate_installs : Bool
    pub interrupt_first : Bool

  -- The name of the signal that arrived.
  unfoldable pub wait_for_shutdown_signal : Signals → Result String String
  wait_for_shutdown_signal signals = do
    fail_if (not signals.interrupt_installs) "failed to install SIGINT handler"
    fail_if (not signals.terminate_installs) "failed to install SIGTERM handler"
    if signals.interrupt_first then ok "SIGINT" else ok "SIGTERM"

  -- What comes from outside: the file system, the requests of the kernel and how its socket fails,
  -- the tokens as the rounds of the server find them, whether the end of the server wakes the
  -- `select!`, the signals, and the displays of errors.
  pub record Outside : Type 0 where
    pub exists : String → Bool
    pub stream : UnixStream
    pub turns : ℕ → Turn
    pub nbd_first : Bool
    pub signals : Signals
    pub closed : String
    pub dropped : String
    pub show_io : IoError → String

  -- The branch of the `select!` that is taken.
  unfoldable pub wakeup : Outside → Wakeup
  unfolding wait_for_shutdown_signal
  wakeup out = if out.nbd_first then nbd_ended else elim (wait_for_shutdown_signal out.signals) [
    | err message ↦ no_handler message
    | ok signal_name ↦ signalled
  ]

module _ (W : Service) (T : Clock (session_transport W)) (K : Kernel) where
  abbrev pub attach_setting : Outside W → VolumeSession W → Setting
  attach_setting out session = record {
    E = caching_engine (session_transport W) T;
    geometry = session.geometry;
    closed = out.closed;
    dropped = out.dropped;
    show_io = out.show_io;
  }

  -- The engine on an opened session.
  abbrev pub attached_engine :
      AttachConfig W → VolumeSession W → W.State → Engine (session_transport W)
  attached_engine config session w =
      new (session_transport W) session.geometry (session, w) (engine_config W config)

  -- The task of the engine once the token is cancelled: a loop that still runs disconnects.
  unfoldable pub end_engine_task : (C : Setting) → BridgeQueue C.E → C.E.State
  end_engine_task C queue =
      if queue.running
      then (run_engine_loop C.E C.geometry.block_size_bytes [] queue.engine).1
      else queue.engine

  -- From the opened session on. Where no handler for signals could be installed, the tasks are left
  -- to themselves: no last state of the engine is known, and that of the kernel is the one at the end
  -- of the server, whenever that comes.
  unfoldable pub run_tasks :
      AttachConfig W
      → Outside W
      → VolumeSession W
      → W.State
      → K.State
      → Result (Unit {0}) String × Option (Engine (session_transport W)) × K.State
  run_tasks config out session w k =
      let C = attach_setting out session in
      let server : Server C = record {
        stream = out.stream;
        queue = record { engine = attached_engine config session w; running = true };
      } in
      let (nbd_result, server', k') =
        serve K C
          (record { device_path = config.device_path; timeout_secs = config.nbd_timeout_secs })
          out.turns server k in
      let ended : Result (Unit {0}) String × Option (Engine (session_transport W)) × K.State =
        (nbd_result, some (end_engine_task C server'.queue), k') in
      elim (wakeup W out) [
        | no_handler message ↦ (err message, none, k')
        | nbd_ended ↦ ended
        | signalled ↦ ended
      ]

  -- The world at the end: that of the session of the engine that is left, and where none is left,
  -- that after the opening.
  abbrev pub final_world : Option (Engine (session_transport W)) → W.State → W.State
  final_world (some e) w = e.transport.1
  final_world none w = w

  -- The result, the engine that is left, if one was started and its end is known, and the world.
  unfoldable pub run_attach :
      AttachConfig W
      → Outside W
      → W.State
      → K.State
      → Result (Unit {0}) String × Option (Engine (session_transport W)) × W.State × K.State
  run_attach config out w k = elim (preflight out.exists config.device_path) [
    | err message ↦ (err message, none, w, k)
    | ok _ ↦
        let (opened, w') = connect_and_open W (session_config W config) w in
        elim opened [
          | err x ↦ (err "failed to open volume for attach", none, w', k)
          | ok session ↦
              let (answer, engine, k') = run_tasks config out session w' k in
              (answer, engine, final_world engine w', k')
        ]
  ]
