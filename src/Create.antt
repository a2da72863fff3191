-- ===== src/Create.antt =====
-- src/create.rs: the command that provisions a volume. The errors of anyhow are the texts of their
-- outermost context.
pub mod Laws
use text.Mathlib.Text.{starts_with}
use temporal_nbd.Prelude.{
  ℕ, Bool, true, false, not, ◌&&◌, ◌||◌, ◌/◌, ◌==◌, Option, none, some, leb, if◌then◌else◌, String,
  ◌<>◌, show, Result, ok, err, ◌>>=◌, ◌>>◌, fail_if, ok_or_else,
}
use temporal_nbd.Session.Service.{Code, already_exists, Reply, answered, refused, timed_out}
use temporal_nbd.Session.Opening.{same_text}

pub record CreateVolumeConfig : Type 0 where
  pub frontend_endpoint : String
  pub namespace : String
  pub volume_id : String
  pub size_bytes : ℕ
  pub block_size_bytes : ℕ
  pub connect_timeout : ℕ
  pub rpc_timeout : ℕ
  pub request_id : Option String
  pub if_not_exists : Bool

pub data CreateVolumeOutcome : Type 0 where
  created : (run_id : String) → CreateVolumeOutcome
  existed : CreateVolumeOutcome

pub record CreateVolumeResponse : Type 0 where
  pub volume_id : String
  pub run_id : String

-- What the command uses of the generated client, tonic and the process: whether an endpoint is
-- well formed, the connection, the request with its namespace, volume, size, block size and
-- request id, and the parts of a request id.
pub record CreateService : Type 1 where
  pub State : Type 0
  pub Client : Type 0
  pub show_code : Code → String
  pub is_endpoint : String → Bool
  pub connect : String → (connect_timeout rpc_timeout : ℕ) → State → Option Client × State
  pub create_volume :
      ℕ
      → Client
      → (namespace volume_id : String) (size block_size : ℕ) (request_id : String) → State
      → Reply CreateVolumeResponse × State
  pub process_id : State → ℕ
  pub nanos_since_epoch : State → ℕ

abbrev pub i64_max : ℕ
i64_max = 9_223_372_036_854_775_807

abbrev pub i32_max : ℕ
i32_max = 2_147_483_647

-- `i64::try_from` and `i32::try_from` on an unsigned number.
abbrev pub to_signed : ℕ → ℕ → Option ℕ
to_signed greatest n = if leb n greatest then some n else none

abbrev pub normalize_endpoint : String → String
normalize_endpoint raw =
    if starts_with raw "http://" || starts_with raw "https://" then raw else "http://" <> raw

abbrev pub is_already_exists : Code → Bool
is_already_exists already_exists = true
is_already_exists c = false

module _ (W : CreateService) where
  abbrev pub default_request_id : W.State → String
  default_request_id w =
      "temporal-nbd-create-" <> (show (W.process_id w) <> ("-" <> show (W.nanos_since_epoch w)))

  abbrev pub chosen_request_id : Option String → W.State → String
  chosen_request_id (some request_id) w = request_id
  chosen_request_id none w = default_request_id w

  -- What the command makes of the reply.
  unfoldable pub judge_reply :
      CreateVolumeConfig → Reply CreateVolumeResponse → Result CreateVolumeOutcome String
  judge_reply config timed_out =
      err ("CreateVolume timed out after " <> (show (config.rpc_timeout / 1_000_000_000) <> "s"))
  judge_reply config (refused status) =
      if is_already_exists status.code && config.if_not_exists
      then ok existed
      else err (
          "CreateVolume failed with "
          <> (W.show_code status.code <> (" (" <> (status.message <> ")"))))
  judge_reply config (answered response) =
      if not (same_text response.volume_id config.volume_id)
      then err (
          "CreateVolume returned unexpected volume_id: got "
          <> (response.volume_id <> (", want " <> config.volume_id)))
      else if same_text response.run_id ""
      then err "CreateVolume returned empty run_id"
      else ok (created response.run_id)

  -- The request over a connection, whose numbers are signed.
  unfoldable pub send_create :
      CreateVolumeConfig → W.Client → W.State → Result CreateVolumeOutcome String × W.State
  send_create config client w =
      let request_id = chosen_request_id config.request_id w in
      let (reply, w') =
        W.create_volume config.rpc_timeout client config.namespace config.volume_id
          config.size_bytes config.block_size_bytes request_id w in
      elim (to_signed i64_max config.size_bytes) [
        | none ↦ (err "size_bytes must be <= i64::MAX", w)
        | some size ↦ elim (to_signed i32_max config.block_size_bytes) [
          | none ↦ (err "block_size_bytes must be <= i32::MAX", w)
          | some block_size ↦ (judge_reply config reply, w')
        ]
      ]

  unfoldable pub run_create_volume :
      CreateVolumeConfig → W.State → Result CreateVolumeOutcome String × W.State
  run_create_volume config w =
      let url = normalize_endpoint config.frontend_endpoint in
      let (connection, w') = W.connect url config.connect_timeout config.rpc_timeout w in
      if config.size_bytes == 0
      then (err "size_bytes must be > 0", w)
      else if not (W.is_endpoint url)
      then (err ("invalid frontend endpoint: " <> url), w)
      else elim connection [
        | none ↦ (err ("failed to connect to frontend endpoint: " <> url), w')
        | some client ↦ send_create config client w'
      ]
