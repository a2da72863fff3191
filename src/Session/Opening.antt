-- ===== src/Session/Opening.antt =====
-- `connect_and_open` of src/session.rs.
use text.Mathlib.Text.{starts_with}
use Prim.Native.String.{compare}
use Prim.Native.Nat.{Ordering}
use temporal_nbd.Prelude.{
  ℤ, pos, negsuc, ℕ, suc, Bool, true, false, not, ◌||◌, Option, none, some, leb, if◌then◌else◌,
  String, ◌<>◌, show, Result, ok, err, map_err, ◌>>=◌, ◌>>◌, fail_if, ok_or_else, u64_max,
}
use temporal_nbd.Errors.{TransportError, retryable, terminal, EngineError, invalid_request, io}
use temporal_nbd.Geometry
use temporal_nbd.Geometry.{VolumeGeometry}
use temporal_nbd.Session.Retry.{Round, done, again, retry}
use temporal_nbd.Session.Backoff.{capped_attempts, delay_for_attempt}
use temporal_nbd.Session.Service.{
  Service, answered, refused, timed_out, OpenVolumeResponse, VolumeSessionConfig, VolumeSession,
  is_retryable_status, status_to_transport,
}

abbrev pub normalize_endpoint : String → String
normalize_endpoint raw =
    if starts_with raw "http://" || starts_with raw "https://" then raw else "http://" <> raw

-- `==` on texts.
abbrev pub same_text : String → String → Bool
same_text a b = elim (compare a b) [ Ordering.eq ↦ true | _ ↦ false ]

-- `{}` of a signed number.
abbrev pub show_ℤ : ℤ → String
show_ℤ (pos n) = show n
show_ℤ (negsuc n) = "-" <> show (suc n)

-- `u64::try_from` and `u32::try_from` on a signed number.
abbrev pub to_unsigned : ℕ → ℤ → Option ℕ
to_unsigned greatest (pos n) = if leb n greatest then some n else none
to_unsigned greatest (negsuc n) = none

-- The display of `EngineError`, which thiserror derives from the attributes in src/errors.rs.
abbrev pub show_error : EngineError → String
show_error (invalid_request message) = "invalid request: " <> message
show_error (io message) = "i/o error: " <> message

-- What `connect_and_open` makes of a response: the geometry of the volume.
unfoldable pub opened_geometry : String → OpenVolumeResponse → Result VolumeGeometry TransportError
opened_geometry volume_id response = do
  fail_if (not (same_text response.volume_id volume_id)) (
      terminal (
        "OpenVolume returned mismatched volume_id: got "
        <> (response.volume_id <> (", want " <> volume_id))))
  size_bytes ←
      ok_or_else (to_unsigned u64_max response.size_bytes)
        (terminal ("OpenVolume returned invalid size_bytes: " <> show_ℤ response.size_bytes))
  block_size_bytes ← ok_or_else (to_unsigned 4_294_967_295 response.block_size_bytes) (
      terminal
        ("OpenVolume returned invalid block_size_bytes: " <> show_ℤ response.block_size_bytes))
  map_err (λ x. terminal ("invalid volume geometry from OpenVolume: " <> show_error x))
      (Geometry.new size_bytes block_size_bytes)

module _ (W : Service) where
  -- `sleep(config.retry.delay_for_attempt(attempt)).await`
  unfoldable pub sleep_before_retry : VolumeSessionConfig W → ℕ → W.State → W.State
  sleep_before_retry config attempt w =
      let (delay, w') = delay_for_attempt W.gen_range config.retry_config attempt w in
      W.sleep delay w'

  abbrev pub new_session :
      VolumeSessionConfig W → String → W.Client → VolumeGeometry → VolumeSession W
  new_session config endpoint_url client geometry = record {
    config = config;
    endpoint_url = endpoint_url;
    client = some client;
    geometry = geometry;
    write_rpc_sent = 0;
    write_payload_bytes_sent = 0;
    write_blocks_sent = 0;
  }

  -- One round of `connect_and_open`: a connection, and the request over it.
  unfoldable pub open_round : VolumeSessionConfig W → W.State → Round (VolumeSession W) × W.State
  open_round config w =
      let endpoint_url = normalize_endpoint config.frontend_endpoint in
      let attempts = capped_attempts config.retry_config in
      let (connection, w') = W.connect endpoint_url config.connect_timeout config.rpc_timeout w in
      elim connection [
        | err x ↦ (
          again (retryable ("connect failed after " <> (show attempts <> (" attempts: " <> x)))),
          w',
        )
        | ok client ↦
            let (reply, w'') =
              W.open_volume config.rpc_timeout client config.namespace config.volume_id w' in
            elim reply [
              | answered response ↦ (
                done (
                    opened_geometry config.volume_id response >>= λ geometry.
                    ok (new_session config endpoint_url client geometry)),
                w'',
              )
              | refused status ↦
                  let may_retry = is_retryable_status status.code in
                  let x = status_to_transport W "OpenVolume" status may_retry in
                  elim may_retry [ true ↦ (again x, w'') | false ↦ (done (err x), w'') ]
              | timed_out ↦ (
                again (retryable ("OpenVolume timed out after " <> (show attempts <> " attempts"))),
                w'',
              )
            ]
      ]

  unfoldable pub connect_and_open :
      VolumeSessionConfig W → W.State → Result (VolumeSession W) TransportError × W.State
  unfolding open_round sleep_before_retry retry
  connect_and_open config =
      retry (open_round config) (sleep_before_retry config) (capped_attempts config.retry_config)
        (retryable "OpenVolume exhausted retry loop unexpectedly")
