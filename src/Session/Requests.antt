-- ===== src/Session/Requests.antt =====
-- The requests of an open session of src/session.rs, and the transport that they make.
use temporal_nbd.Prelude.{
  ℕ, zero, suc, true, false, Option, none, some, List, [], ◌∷◌, String, is_empty, length, take,
  drop, if◌then◌else◌, ◌<>◌, show, Result, ok, err, saturating_add, usize_max, u64_max, min, max,
  ◌+◌,
}
use temporal_nbd.Errors.{TransportError, retryable}
use temporal_nbd.Transport.{Bytes, BlockWrite, BackendTransport}
use temporal_nbd.Session.Retry.{Round, done, again, retry}
use temporal_nbd.Session.Backoff.{capped_attempts}
use temporal_nbd.Session.Service.{
  Service, Status, answered, refused, timed_out, VolumeSession, Session, is_retryable_status,
  status_to_transport,
}
use temporal_nbd.Session.Opening.{sleep_before_retry}

abbrev pub max_writes_per_write_batch_rpc : ℕ
max_writes_per_write_batch_rpc = 64

-- The loop of `summarize_writes`.
abbrev pub summary : List BlockWrite → ℕ × ℕ × ℕ → ℕ × ℕ × ℕ
summary [] totals = totals
summary (w ∷ ws) totals =
    summary ws
      (min (totals.0 + length w.block_data) usize_max, min totals.1 w.lba, max totals.2 w.lba)

-- The bytes of a batch, its least and its greatest address.
abbrev pub summarize_writes : List BlockWrite → Option (ℕ × ℕ × ℕ)
summarize_writes [] = none
summarize_writes (w ∷ ws) = some (summary (w ∷ ws) (0, u64_max, 0))

module _ (W : Service) where
  -- The client is also the answer, for `expect`.
  unfoldable pub ensure_connected : Session W → Result W.Client TransportError × Session W
  ensure_connected (s, w) = elim s.client [
    | some client ↦ (ok client, (s, w))
    | none ↦
        let (connection, w') =
          W.connect s.endpoint_url s.config.connect_timeout s.config.rpc_timeout w in
        elim connection [
          | err x ↦ (err (retryable ("reconnect failed: " <> x)), (s, w'))
          | ok client ↦ (ok client, (record s { client = some client }, w'))
        ]
  ]

  -- `self.client = None`
  abbrev pub drop_client : VolumeSession W → VolumeSession W
  drop_client s = record s { client = none }

  -- What the requests make of a status, and of a timeout.
  abbrev pub refused_round : {A : Type 0} → String → Status → Round A
  refused_round operation status =
      let may_retry = is_retryable_status status.code in
      let x = status_to_transport W operation status may_retry in
      elim may_retry [ true ↦ again x | false ↦ done (err x) ]

  abbrev pub timed_out_round : {A : Type 0} → String → ℕ → Round A
  timed_out_round operation attempts =
      again (retryable (operation <> (" timed out after " <> (show attempts <> " attempts"))))

  -- One round of `run_read_blocks_with_retry`.
  unfoldable pub read_round : ℕ → ℕ → Session W → Round Bytes × Session W
  read_round start_lba block_count state =
      let (connection, (s, w)) = ensure_connected state in
      let config = s.config in
      elim connection [
        | err x ↦ (again x, (s, w))
        | ok client ↦
            let (reply, w') =
              W.read_blocks config.rpc_timeout client config.namespace config.volume_id start_lba
                block_count w in
            elim reply [
              | answered bytes ↦ (done (ok bytes), (s, w'))
              | refused status ↦ (refused_round "ReadBlocks" status, (drop_client s, w'))
              | timed_out ↦ (
                timed_out_round "ReadBlocks" (capped_attempts config.retry_config),
                (drop_client s, w'),
              )
            ]
      ]

  -- The sleep between two rounds.
  abbrev pub pause : ℕ → Session W → Session W
  pause attempt (s, w) = (s, sleep_before_retry W s.config attempt w)

  unfoldable pub run_read_blocks_with_retry :
      ℕ → ℕ → Session W → Result Bytes TransportError × Session W
  run_read_blocks_with_retry start_lba block_count state =
      retry (read_round start_lba block_count) pause (capped_attempts state.0.config.retry_config)
        (retryable "ReadBlocks exhausted retry loop unexpectedly") state

  -- The counters after a batch that was acknowledged.
  abbrev pub count_batch : List BlockWrite → ℕ → VolumeSession W → VolumeSession W
  count_batch writes payload_bytes s = record s {
    write_rpc_sent = saturating_add s.write_rpc_sent 1;
    write_payload_bytes_sent = saturating_add s.write_payload_bytes_sent payload_bytes;
    write_blocks_sent = saturating_add s.write_blocks_sent (length writes);
  }

  -- One round of `run_write_batch_rpc_with_retry`.
  unfoldable pub write_round : List BlockWrite → ℕ → Session W → Round (Unit {0}) × Session W
  write_round writes payload_bytes state =
      let (connection, (s, w)) = ensure_connected state in
      let config = s.config in
      elim connection [
        | err x ↦ (again x, (s, w))
        | ok client ↦
            let (reply, w') =
              W.write_batch config.rpc_timeout client config.namespace config.volume_id writes w in
            elim reply [
              | answered _ ↦ (done (ok tt), (count_batch writes payload_bytes s, w'))
              | refused status ↦ (refused_round "WriteBatch" status, (drop_client s, w'))
              | timed_out ↦ (
                timed_out_round "WriteBatch" (capped_attempts config.retry_config),
                (drop_client s, w'),
              )
            ]
      ]

  unfoldable pub run_write_batch_rpc_with_retry :
      List BlockWrite → Session W → Result (Unit {0}) TransportError × Session W
  run_write_batch_rpc_with_retry writes state = elim (summarize_writes writes) [
    | none ↦ (ok tt, state)
    | some (payload_bytes, min_lba, max_lba) ↦
        retry (write_round writes payload_bytes) pause (capped_attempts state.0.config.retry_config)
          (retryable "WriteBatch exhausted retry loop unexpectedly") state
  ]

  -- The loop over `writes.chunks(64)`. There are no more chunks than writes.
  unfoldable pub write_chunks :
      ℕ → List BlockWrite → Session W → Result (Unit {0}) TransportError × Session W
  write_chunks zero writes state = (ok tt, state)
  write_chunks (suc fuel) writes state =
      if is_empty writes
      then (ok tt, state)
      else let chunk = take max_writes_per_write_batch_rpc writes in
        let (answer, state') = run_write_batch_rpc_with_retry chunk state in
        elim answer [
          | err x ↦ (err x, state')
          | ok _ ↦ write_chunks fuel (drop max_writes_per_write_batch_rpc writes) state'
        ]

  unfoldable pub run_write_batch_with_retry :
      List BlockWrite → Session W → Result (Unit {0}) TransportError × Session W
  run_write_batch_with_retry writes state =
      if is_empty writes then (ok tt, state) else write_chunks (length writes) writes state

  -- `disconnect`: the client is dropped.
  abbrev pub disconnect : Session W → Result (Unit {0}) TransportError × Session W
  disconnect (s, w) = (ok tt, (drop_client s, w))

  abbrev pub session_transport : BackendTransport
  session_transport = record {
    State = Session W;
    read_blocks = run_read_blocks_with_retry;
    write_batch = run_write_batch_with_retry;
    disconnect = disconnect;
  }
