-- ===== src/Session/Service.antt =====
-- What src/session.rs uses of the generated client, of tonic and of tokio, as a record of
-- operations on the state of the world outside the process, and the session's own state.
use temporal_nbd.Prelude.{ℕ, ℤ, Bool, true, false, Option, List, String, Result, ◌<>◌}
use temporal_nbd.Errors.{TransportError, retryable, terminal}
use temporal_nbd.Geometry.{VolumeGeometry}
use temporal_nbd.Transport.{Bytes, BlockWrite}
use temporal_nbd.Session.Backoff.{Floats, RetryConfig}

-- `tonic::Code`: the codes that the source names, and the others.
pub data Code : Type 0 where
  unavailable : Code
  deadline_exceeded : Code
  unknown : Code
  internal : Code
  aborted : Code
  resource_exhausted : Code
  cancelled : Code
  already_exists : Code
  other_code : ℕ → Code

pub record Status : Type 0 where
  pub code : Code
  pub message : String

-- The outcomes of `timeout(_, client.request(_)).await`: `Ok(Ok(_))`, `Ok(Err(_))`, `Err(_)`.
pub data Reply (A : Type 0) : Type 0 where
  answered : A → Reply A
  refused : Status → Reply A
  timed_out : Reply A

pub record OpenVolumeResponse : Type 0 where
  pub volume_id : String
  pub size_bytes : ℤ
  pub block_size_bytes : ℤ

-- The durations are those of the connection's and of the requests' timeouts, the names those of
-- the namespace and the volume.
pub record Service : Type 1 where
  pub floats : Floats
  pub State : Type 0
  pub Client : Type 0
  pub show_code : Code → String
  pub sleep : ℕ → State → State
  pub gen_range : floats.F64 → floats.F64 → State → floats.F64 × State
  pub connect : String → (connect_timeout rpc_timeout : ℕ) → State → Result Client String × State
  pub open_volume :
      ℕ → Client → (namespace volume : String) → State → Reply OpenVolumeResponse × State
  pub read_blocks :
      ℕ → Client → (namespace volume : String) → (start count : ℕ) → State → Reply Bytes × State
  pub write_batch :
      ℕ → Client → (namespace volume : String) → List BlockWrite → State → Reply (Unit {0}) × State

abbrev pub is_retryable_status : Code → Bool
is_retryable_status (other_code n) = false
is_retryable_status already_exists = false
is_retryable_status unavailable = true
is_retryable_status deadline_exceeded = true
is_retryable_status unknown = true
is_retryable_status internal = true
is_retryable_status aborted = true
is_retryable_status resource_exhausted = true
is_retryable_status cancelled = true

module _ (W : Service) where
  pub record VolumeSessionConfig : Type 0 where
    pub frontend_endpoint : String
    pub namespace : String
    pub volume_id : String
    pub connect_timeout : ℕ
    pub rpc_timeout : ℕ
    pub retry_config : RetryConfig W.floats

  pub record VolumeSession : Type 0 where
    pub config : VolumeSessionConfig
    pub endpoint_url : String
    pub client : Option W.Client
    pub geometry : VolumeGeometry
    pub write_rpc_sent : ℕ
    pub write_payload_bytes_sent : ℕ
    pub write_blocks_sent : ℕ

  -- A session and the world around it.
  abbrev pub Session : Type 0
  Session = VolumeSession × W.State

  abbrev pub status_to_transport : String → Status → Bool → TransportError
  status_to_transport operation status may_retry =
      let message =
        operation
        <> (" failed with " <> (W.show_code status.code <> (" (" <> (status.message <> ")")))) in
      elim may_retry [ true ↦ retryable message | false ↦ terminal message ]
