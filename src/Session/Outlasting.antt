-- ===== src/Session/Outlasting.antt =====
-- The requests of a session outlast failures: as long as fewer of them fail than there are attempts,
-- and each in a way that allows another attempt, they are answered.
use temporal_nbd.Prelude.{
  ℕ, zero, suc, ◌<◌, ◌≡◌, refl, ap, ◌⊎◌, inl, inr, true, String, List, ok, err, arith, length,
  is_empty, take, drop, Bool-cases, Option-cases,
}
use temporal_nbd.Errors.{TransportError}
use temporal_nbd.Transport.{Bytes, BlockWrite}
use temporal_nbd.Session.Retry.{again}
use temporal_nbd.Session.RetryLaws.{Endures, Succeeds, retry-Succeeds}
use temporal_nbd.Session.Backoff.{capped_attempts, delay_for_attempt}
use temporal_nbd.Session.Service.{
  Service, Reply, answered, refused, timed_out, Status, VolumeSessionConfig, Session,
  is_retryable_status, status_to_transport,
}
use temporal_nbd.Session.Opening.{sleep_before_retry}
use temporal_nbd.Session.Requests.{
  ensure_connected, read_round, write_round, pause, refused_round, run_read_blocks_with_retry,
  summarize_writes, run_write_batch_rpc_with_retry, max_writes_per_write_batch_rpc, write_chunks,
  run_write_batch_with_retry,
}

-- A reply after which the request may be repeated.
abbrev pub IsTransient : {A : Type 0} → Reply A → Type 0
IsTransient (answered a) = ⊥
IsTransient (refused status) = is_retryable_status status.code ≡ true
IsTransient timed_out = Unit

Transient-cases :
    {A : Type 0} (r : Reply A)
    → IsTransient r
    → ((status : Status) × (r ≡ refused status) × (is_retryable_status status.code ≡ true))
      ⊎ (r ≡ timed_out)
Transient-cases (answered a) h = absurd h
Transient-cases (refused status) h = inl (status, refl, h)
Transient-cases timed_out h = inr refl

refused_again :
    (W : Service) {A : Type 0} (operation : String) (status : Status)
    → is_retryable_status status.code ≡ true
    → refused_round W {A = A} operation status
      ≡ again (status_to_transport W operation status (is_retryable_status status.code))
refused_again W operation status h =
    rw (h, refused_round) (ap (λ b. again (status_to_transport W operation status b)) h)

-- A service of which at most `n` of the next calls fail, each for a while.
pub record Flaky (W : Service) : Type 1 where
  pub AtMost : ℕ → W.State → Type 0
  pub sleeps : (n d : ℕ) (w : W.State) → AtMost n w → AtMost n (W.sleep d w)
  pub draws :
      (n : ℕ) (low high : W.floats.F64) (w : W.State)
      → AtMost n w
      → AtMost n (W.gen_range low high w).1
  pub connects :
      (n : ℕ) (url : String) (connect_timeout rpc_timeout : ℕ) (w : W.State)
      → AtMost n w
      → let (answer, w') = W.connect url connect_timeout rpc_timeout w in
        ((client : W.Client) × (answer ≡ ok client) × AtMost n w')
        ⊎ ((m : ℕ) × (x : String) × (n ≡ suc m) × (answer ≡ err x) × AtMost m w')
  pub reads :
      (n limit : ℕ) (client : W.Client) (namespace volume : String) (start count : ℕ) (w : W.State)
      → AtMost n w
      → let (reply, w') = W.read_blocks limit client namespace volume start count w in
        ((bytes : Bytes) × (reply ≡ answered bytes) × AtMost n w')
        ⊎ ((m : ℕ) × (n ≡ suc m) × IsTransient reply × AtMost m w')
  pub writes :
      (n limit : ℕ) (client : W.Client) (namespace volume : String) (ws : List BlockWrite)
      (w : W.State)
      → AtMost n w
      → let (reply, w') = W.write_batch limit client namespace volume ws w in
        ((u : Unit {0}) × (reply ≡ answered u) × AtMost n w')
        ⊎ ((m : ℕ) × (n ≡ suc m) × IsTransient reply × AtMost m w')

module _ {W : Service} (F : Flaky W) (config : VolumeSessionConfig W) where
  -- A session with this configuration that meets at most `n` failures.
  abbrev pub Meets : ℕ → Session W → Type 0
  Meets n state = F.AtMost n state.1 × (state.0.config ≡ config)

  delay-AtMost :
      (n i : ℕ) (c : VolumeSessionConfig W) (w : W.State)
      → F.AtMost n w
      → F.AtMost n (delay_for_attempt W.gen_range c.retry_config i w).1
  unfolding delay_for_attempt
  delay-AtMost n i c w h =
      let ratio = c.retry_config.jitter_ratio in
      elim (Bool-cases (W.floats.le_f64 ratio W.floats.zero_f64)) [
        | inl p ↦ rw (p, delay_for_attempt) h
        | inr p ↦ rw (p, delay_for_attempt) (F.draws n _ _ w h)
      ]

  pause-Meets : (n i : ℕ) (state : Session W) → Meets n state → Meets n (pause W i state)
  unfolding sleep_before_retry
  pause-Meets n i state h = (F.sleeps n _ _ (delay-AtMost n i state.0.config state.1 h.0), h.1)

  ensure_connected-Meets :
      (n : ℕ) (state : Session W)
      → Meets n state
      → let (answer, state') = ensure_connected W state in
        ((client : W.Client) × (answer ≡ ok client) × Meets n state')
        ⊎ ((m : ℕ) × (x : TransportError) × (n ≡ suc m) × (answer ≡ err x) × Meets m state')
  unfolding ensure_connected
  ensure_connected-Meets n (s, w) h = elim (Option-cases s.client) [
    | inr (client, p) ↦ rw (p, ensure_connected) (inl (client, refl, h))
    | inl p ↦
        elim (F.connects n s.endpoint_url s.config.connect_timeout s.config.rpc_timeout w h.0) [
          | inl (client, q, k) ↦ rw (p, q, ensure_connected) (inl (client, refl, (k, h.1)))
          | inr (m, x, e, q, k) ↦ rw (p, q, ensure_connected) (inr (m, _, e, refl, (k, h.1)))
        ]
  ]

  read_round-Endures :
      (n start count : ℕ) (state : Session W)
      → Meets n state
      → Endures Meets n (read_round W start count state)
  unfolding read_round
  read_round-Endures n start count state h = elim (ensure_connected-Meets n state h) [
    | inr (m, x, e, q, k) ↦ rw (q, read_round) (inr (m, x, e, refl, k))
    | inl (client, q, k) ↦
        let (s, w) = (ensure_connected W state).1 in
        let c = s.config in
        elim (F.reads n c.rpc_timeout client c.namespace c.volume_id start count w k.0) [
          | inl (bytes, r, l) ↦ rw (q, r, read_round) (inl (bytes, refl, (l, k.1)))
          | inr (m, e, t, l) ↦ elim (Transient-cases _ t) [
            | inl (status, r, y) ↦
                rw (q, r, read_round)
                  (inr (m, _, e, refused_again W "ReadBlocks" status y, (l, k.1)))
            | inr r ↦ rw (q, r, read_round) (inr (m, _, e, refl, (l, k.1)))
          ]
        ]
  ]

  write_round-Endures :
      (n : ℕ) (ws : List BlockWrite) (payload_bytes : ℕ) (state : Session W)
      → Meets n state
      → Endures Meets n (write_round W ws payload_bytes state)
  unfolding write_round
  write_round-Endures n ws payload_bytes state h = elim (ensure_connected-Meets n state h) [
    | inr (m, x, e, q, k) ↦ rw (q, write_round) (inr (m, x, e, refl, k))
    | inl (client, q, k) ↦
        let (s, w) = (ensure_connected W state).1 in
        let c = s.config in
        elim (F.writes n c.rpc_timeout client c.namespace c.volume_id ws w k.0) [
          | inl (u, r, l) ↦ rw (q, r, write_round) (inl (tt, refl, (l, k.1)))
          | inr (m, e, t, l) ↦ elim (Transient-cases _ t) [
            | inl (status, r, y) ↦
                rw (q, r, write_round)
                  (inr (m, _, e, refused_again W "WriteBatch" status y, (l, k.1)))
            | inr r ↦ rw (q, r, write_round) (inr (m, _, e, refl, (l, k.1)))
          ]
        ]
  ]

  pub read-Succeeds :
      (n start count : ℕ) (state : Session W)
      → n < capped_attempts config.retry_config
      → Meets n state
      → Succeeds Meets n (run_read_blocks_with_retry W start count state)
  unfolding run_read_blocks_with_retry
  read-Succeeds n start count state b h =
      retry-Succeeds (read_round W start count) (pause W)
        (capped_attempts state.0.config.retry_config) _ Meets
        (λ n s. read_round-Endures n start count s) pause-Meets n state (rw h.1 b) h

  write_rpc-Succeeds :
      (n : ℕ) (ws : List BlockWrite) (state : Session W)
      → n < capped_attempts config.retry_config
      → Meets n state
      → Succeeds Meets n (run_write_batch_rpc_with_retry W ws state)
  unfolding run_write_batch_rpc_with_retry
  write_rpc-Succeeds n ws state b h = elim (Option-cases (summarize_writes ws)) [
    | inl p ↦ rw (p, run_write_batch_rpc_with_retry) (tt, n, omega arith, refl, h)
    | inr (totals, p) ↦
        rw (p, run_write_batch_rpc_with_retry)
          (retry-Succeeds (write_round W ws totals.0) (pause W)
            (capped_attempts state.0.config.retry_config) _ Meets
            (λ n s. write_round-Endures n ws totals.0 s) pause-Meets n state (rw h.1 b) h)
  ]

  write_chunks-Succeeds :
      (fuel n : ℕ) (ws : List BlockWrite) (state : Session W)
      → n < capped_attempts config.retry_config
      → Meets n state
      → Succeeds Meets n (write_chunks W fuel ws state)
  unfolding write_chunks
  write_chunks-Succeeds zero n ws state b h = (tt, n, omega arith, refl, h)
  write_chunks-Succeeds (suc fuel) n ws state b h = elim (Bool-cases (is_empty ws)) [
    | inl p ↦ rw (p, write_chunks) (tt, n, omega arith, refl, h)
    | inr p ↦
        let chunk = take max_writes_per_write_batch_rpc ws in
        let (u, m, le, q, k) = write_rpc-Succeeds n chunk state b h in
        let (v, m', le', q', k') =
          write_chunks-Succeeds fuel m (drop max_writes_per_write_batch_rpc ws)
            (run_write_batch_rpc_with_retry W chunk state).1 (omega (arith, le, b)) k in
        rw (p, q, write_chunks) (v, m', omega (arith, le, le'), q', k')
  ]

  pub write_batch-Succeeds :
      (n : ℕ) (ws : List BlockWrite) (state : Session W)
      → n < capped_attempts config.retry_config
      → Meets n state
      → Succeeds Meets n (run_write_batch_with_retry W ws state)
  unfolding run_write_batch_with_retry
  write_batch-Succeeds n ws state b h = elim (Bool-cases (is_empty ws)) [
    | inl p ↦ rw (p, run_write_batch_with_retry) (tt, n, omega arith, refl, h)
    | inr p ↦ rw (p, run_write_batch_with_retry) (write_chunks-Succeeds (length ws) n ws state b h)
  ]

  -- The requests of a session outlast failures. Of a session with this configuration, where fewer of
  -- the service's next connections and requests fail than there are attempts, each with a status or
  -- a timeout after which the request may be repeated, a read is answered with bytes, and a batch of
  -- any length is acknowledged, in all its parts.
  pub requests_outlast :
      (n start count : ℕ) (ws : List BlockWrite) (state : Session W)
      → n < capped_attempts config.retry_config
      → Meets n state
      → ((bytes : Bytes) × ((run_read_blocks_with_retry W start count state).0 ≡ ok bytes))
        × ((run_write_batch_with_retry W ws state).0 ≡ ok tt)
  requests_outlast n start count ws state b h =
      let (bytes, m, le, q, k) = read-Succeeds n start count state b h in
      let (u, m', le', q', k') = write_batch-Succeeds n ws state b h in ((bytes, q), q')
