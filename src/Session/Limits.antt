-- ===== src/Session/Limits.antt =====
-- The write requests of a session respect the limit of the service: stated as a rule, what requests
-- within the limit preserve, a batch of any length preserves.
use temporal_nbd.Prelude.{
  ℕ, String, zero, suc, ◌≤◌, ◌≡◌, refl, inl, inr, false, List, [], ◌∷◌, Option-cases, Bool-cases,
  Result-cases, arith, take, drop, is_empty, length, length-take,
}
use temporal_nbd.Transport.{BlockWrite}
use temporal_nbd.Session.Backoff.{capped_attempts, delay_for_attempt}
use temporal_nbd.Session.RetryLaws.{Ends, retry_rule}
use temporal_nbd.Session.Service.{Service, VolumeSessionConfig, Session}
use temporal_nbd.Session.Opening.{sleep_before_retry}
use temporal_nbd.Session.Requests.{
  ensure_connected, pause, write_round, run_write_batch_rpc_with_retry, write_chunks,
  run_write_batch_with_retry, max_writes_per_write_batch_rpc,
}
use temporal_nbd.Session.RequestLaws.{Reply-cases, refused_round-Ends}

-- A predicate on the world that write requests of 1 to 64 writes preserve, and the other steps.
pub record Allows (W : Service) (P : W.State → Type 0) : Type 0 where
  pub sleeps : (d : ℕ) (w : W.State) → P w → P (W.sleep d w)
  pub draws : (low high : W.floats.F64) (w : W.State) → P w → P (W.gen_range low high w).1
  pub connects :
      (url : String) (connect_timeout rpc_timeout : ℕ) (w : W.State)
      → P w
      → P (W.connect url connect_timeout rpc_timeout w).1
  pub writes :
      (limit : ℕ) (client : W.Client) (namespace volume_id : String) (ws : List BlockWrite)
      (w : W.State)
      → is_empty ws ≡ false
      → length ws ≤ max_writes_per_write_batch_rpc
      → P w
      → P (W.write_batch limit client namespace volume_id ws w).1

module _ {W : Service} {P : W.State → Type 0} (A : Allows W P) where
  abbrev Held : Session W → Type 0
  Held state = P state.1

  delay-Held :
      (c : VolumeSessionConfig W) (attempt : ℕ) (w : W.State)
      → P w
      → P (delay_for_attempt W.gen_range c.retry_config attempt w).1
  unfolding delay_for_attempt
  delay-Held c attempt w p =
      elim (Bool-cases (W.floats.le_f64 c.retry_config.jitter_ratio W.floats.zero_f64)) [
        | inl h ↦ rw (h, delay_for_attempt) p
        | inr h ↦ rw (h, delay_for_attempt) (A.draws _ _ w p)
      ]

  pause-Held : (attempt : ℕ) (state : Session W) → Held state → Held (pause W attempt state)
  unfolding sleep_before_retry
  pause-Held attempt state p = A.sleeps _ _ (delay-Held state.0.config attempt state.1 p)

  connected-Held : (state : Session W) → Held state → Held (ensure_connected W state).1
  unfolding ensure_connected
  connected-Held state p =
      let (s, w) = state in
      elim (Option-cases s.client) [
        | inr (client, h) ↦ rw (h, ensure_connected) p
        | inl h ↦
            let free =
              A.connects s.endpoint_url s.config.connect_timeout s.config.rpc_timeout w p in
            elim (Result-cases
              (W.connect s.endpoint_url s.config.connect_timeout s.config.rpc_timeout w).0) [
                | inl (client, q) ↦ rw (h, q, ensure_connected) free
                | inr (x, q) ↦ rw (h, q, ensure_connected) free
              ]
      ]

  write_round-Ends :
      (ws : List BlockWrite) (payload_bytes : ℕ)
      → is_empty ws ≡ false
      → length ws ≤ max_writes_per_write_batch_rpc
      → (state : Session W) → Held state
      → Ends Held
          (λ r. Held)
          (write_round W ws payload_bytes state).0
          (write_round W ws payload_bytes state).1
  unfolding write_round
  write_round-Ends ws payload_bytes n l state p =
      let (s, w) = (ensure_connected W state).1 in
      let c = s.config in
      let connected = connected-Held state p in
      elim (Result-cases (ensure_connected W state).0) [
        | inr (x, h) ↦ rw (h, write_round) (connected, connected)
        | inl (client, h) ↦
            let sent = A.writes c.rpc_timeout client c.namespace c.volume_id ws w n l connected in
            elim (Reply-cases (W.write_batch c.rpc_timeout client c.namespace c.volume_id ws w).0) [
              | inl (u, q) ↦ rw (h, q, write_round) sent
              | inr (inl (status, q)) ↦
                  rw (h, q, write_round)
                    (refused_round-Ends W "WriteBatch" status Held (λ r. Held) _ sent (λ x. sent))
              | inr (inr q) ↦ rw (h, q, write_round) (sent, sent)
            ]
      ]

  rpc-Held :
      (ws : List BlockWrite) (state : Session W)
      → length ws ≤ max_writes_per_write_batch_rpc
      → Held state
      → Held (run_write_batch_rpc_with_retry W ws state).1
  unfolding run_write_batch_rpc_with_retry
  rpc-Held [] state l p = p
  rpc-Held (x ∷ xs) state l p =
      retry_rule (write_round W (x ∷ xs) _) (pause W) (capped_attempts state.0.config.retry_config)
        _ Held (λ r. Held) (write_round-Ends (x ∷ xs) _ refl l) pause-Held state (omega arith) p

  chunks-Held :
      (fuel : ℕ) (ws : List BlockWrite) (state : Session W)
      → Held state
      → Held (write_chunks W fuel ws state).1
  unfolding write_chunks
  chunks-Held zero ws state p = p
  chunks-Held (suc fuel) ws state p = elim (Bool-cases (is_empty ws)) [
    | inl e ↦ rw (e, write_chunks) p
    | inr e ↦
        let chunk = take max_writes_per_write_batch_rpc ws in
        let sent =
          rpc-Held chunk state (omega (arith, length-take max_writes_per_write_batch_rpc ws)) p in
        let (answer, state') = run_write_batch_rpc_with_retry W chunk state in
        elim (Result-cases answer) [
          | inr (x, q) ↦ rw (e, q, write_chunks) sent
          | inl (u, q) ↦
              rw (e, q, write_chunks)
                (chunks-Held fuel (drop max_writes_per_write_batch_rpc ws) state' sent)
        ]
  ]

  -- Whatever write requests of 1 to 64 writes preserve, with reconnections and pauses between them,
  -- is preserved by a batch of any length: a session sends no other write requests.
  pub run_write_batch_limited :
      (ws : List BlockWrite) (state : Session W)
      → P state.1
      → P (run_write_batch_with_retry W ws state).1.1
  unfolding run_write_batch_with_retry
  run_write_batch_limited ws state p = elim (Bool-cases (is_empty ws)) [
    | inl e ↦ rw (e, run_write_batch_with_retry) p
    | inr e ↦ rw (e, run_write_batch_with_retry) (chunks-Held (length ws) ws state p)
  ]
