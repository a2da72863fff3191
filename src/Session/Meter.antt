-- ===== src/Session/Meter.antt =====
-- How many requests a session makes for one operation, and what it counts itself.
use temporal_nbd.Prelude.{
  ℕ, String, suc, ◌+◌, ◌≤◌, inl, inr, List, [], ◌∷◌, Option-cases, Bool-cases, Result-cases, arith,
  max,
}
use temporal_nbd.Transport.{BlockWrite}
use temporal_nbd.Session.Backoff.{capped_attempts, delay_for_attempt}
use temporal_nbd.Session.RetryLaws.{retry_cost}
use temporal_nbd.Session.Service.{Service, VolumeSessionConfig, Session}
use temporal_nbd.Session.Opening.{sleep_before_retry}
use temporal_nbd.Session.Requests.{
  ensure_connected, pause, read_round, run_read_blocks_with_retry, write_round,
  run_write_batch_rpc_with_retry,
}
use temporal_nbd.Session.RequestLaws.{Reply-cases}

-- A count of the requests that a service has received.
pub record Meter (W : Service) : Type 0 where
  pub requests : W.State → ℕ
  pub sleep_free : (d : ℕ) (w : W.State) → requests (W.sleep d w) ≤ requests w
  pub gen_range_free :
      (low high : W.floats.F64) (w : W.State) → requests (W.gen_range low high w).1 ≤ requests w
  pub connect_free :
      (url : String) (connect_timeout rpc_timeout : ℕ) (w : W.State)
      → requests (W.connect url connect_timeout rpc_timeout w).1 ≤ requests w
  pub read_counts :
      (limit : ℕ) (client : W.Client) (namespace volume_id : String) (start count : ℕ) (w : W.State)
      → requests (W.read_blocks limit client namespace volume_id start count w).1 ≤ suc (requests w)
  pub write_counts :
      (limit : ℕ) (client : W.Client) (namespace volume_id : String) (ws : List BlockWrite)
      (w : W.State)
      → requests (W.write_batch limit client namespace volume_id ws w).1 ≤ suc (requests w)

module _ {W : Service} (M : Meter W) where
  abbrev spent : Session W → ℕ
  spent state = M.requests state.1

  delay-free :
      (c : VolumeSessionConfig W) (attempt : ℕ) (w : W.State)
      → M.requests (delay_for_attempt W.gen_range c.retry_config attempt w).1 ≤ M.requests w
  unfolding delay_for_attempt
  delay-free c attempt w =
      elim (Bool-cases (W.floats.le_f64 c.retry_config.jitter_ratio W.floats.zero_f64)) [
        | inl p ↦ rw (p, delay_for_attempt) (omega arith)
        | inr p ↦ rw (p, delay_for_attempt) (M.gen_range_free _ _ w)
      ]

  pause-free : (attempt : ℕ) (state : Session W) → spent (pause W attempt state) ≤ spent state
  unfolding sleep_before_retry
  pause-free attempt state =
      let c = state.0.config in
      let w = state.1 in
      let drawn = delay_for_attempt W.gen_range c.retry_config attempt w in
      omega (arith, delay-free c attempt w, M.sleep_free drawn.0 drawn.1)

  connected-free : (state : Session W) → spent (ensure_connected W state).1 ≤ spent state
  unfolding ensure_connected
  connected-free state =
      let (s, w) = state in
      elim (Option-cases s.client) [
        | inr (client, p) ↦ rw (p, ensure_connected) (omega arith)
        | inl p ↦
            let free =
              M.connect_free s.endpoint_url s.config.connect_timeout s.config.rpc_timeout w in
            elim (Result-cases
              (W.connect s.endpoint_url s.config.connect_timeout s.config.rpc_timeout w).0) [
                | inl (client, q) ↦ rw (p, q, ensure_connected) free
                | inr (x, q) ↦ rw (p, q, ensure_connected) free
              ]
      ]

  read_round_cost :
      (start count : ℕ) (state : Session W)
      → spent (read_round W start count state).1 ≤ suc (spent state)
  unfolding read_round
  read_round_cost start count state =
      let (s, w) = (ensure_connected W state).1 in
      let c = s.config in
      let connected = connected-free state in
      elim (Result-cases (ensure_connected W state).0) [
        | inr (x, h) ↦ rw (h, read_round) (omega (arith, connected))
        | inl (client, h) ↦
            let reply = W.read_blocks c.rpc_timeout client c.namespace c.volume_id start count w in
            let one = M.read_counts c.rpc_timeout client c.namespace c.volume_id start count w in
            elim (Reply-cases reply.0) [
              | inl (bytes, q) ↦ rw (h, q, read_round) (omega (arith, connected, one))
              | inr (inl (status, q)) ↦ rw (h, q, read_round) (omega (arith, connected, one))
              | inr (inr q) ↦ rw (h, q, read_round) (omega (arith, connected, one))
            ]
      ]

  write_round_cost :
      (ws : List BlockWrite) (payload_bytes : ℕ) (state : Session W)
      → spent (write_round W ws payload_bytes state).1 ≤ suc (spent state)
  unfolding write_round
  write_round_cost ws payload_bytes state =
      let (s, w) = (ensure_connected W state).1 in
      let c = s.config in
      let connected = connected-free state in
      elim (Result-cases (ensure_connected W state).0) [
        | inr (x, h) ↦ rw (h, write_round) (omega (arith, connected))
        | inl (client, h) ↦
            let reply = W.write_batch c.rpc_timeout client c.namespace c.volume_id ws w in
            let one = M.write_counts c.rpc_timeout client c.namespace c.volume_id ws w in
            elim (Reply-cases reply.0) [
              | inl (u, q) ↦ rw (h, q, write_round) (omega (arith, connected, one))
              | inr (inl (status, q)) ↦ rw (h, q, write_round) (omega (arith, connected, one))
              | inr (inr q) ↦ rw (h, q, write_round) (omega (arith, connected, one))
            ]
      ]

  rpc_cost :
      (ws : List BlockWrite) (state : Session W)
      → spent (run_write_batch_rpc_with_retry W ws state).1
        ≤ spent state + capped_attempts state.0.config.retry_config
  unfolding run_write_batch_rpc_with_retry
  rpc_cost [] state = omega arith
  rpc_cost (x ∷ xs) state =
      retry_cost (write_round W (x ∷ xs) _) (pause W) _ _ spent (write_round_cost (x ∷ xs) _)
        pause-free state

  -- By any count to which a request adds at most one, and the rest nothing, a read, and each part
  -- of a batch, makes at most as many requests as there are attempts configured, and one where none
  -- is.
  pub requests_limited :
      (start count : ℕ) (ws : List BlockWrite) (state : Session W)
      → let attempts = max state.0.config.retry_config.max_attempts 1 in
        let read = (run_read_blocks_with_retry W start count state).1 in
        let written = (run_write_batch_rpc_with_retry W ws state).1 in
        (M.requests read.1 ≤ M.requests state.1 + attempts)
        × (M.requests written.1 ≤ M.requests state.1 + attempts)
  unfolding run_read_blocks_with_retry
  requests_limited start count ws state = (
    retry_cost (read_round W start count) (pause W) _ _ spent (read_round_cost start count)
        pause-free state,
    rpc_cost ws state,
  )
