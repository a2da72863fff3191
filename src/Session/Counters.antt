-- ===== src/Session/Counters.antt =====
-- What the counters of a session come to: the requests, the bytes and the blocks of the parts of a
-- batch that were acknowledged, whatever was repeated in between.
use temporal_nbd.Prelude.{
  ℕ, zero, suc, false, ◌+◌, ◌*◌, ◌/◌, ◌≤◌, ◌<◌, ◌≡◌, refl, subst, inl, inr, List, [], ◌∷◌,
  Option-cases, Result, ok, err, Result-cases, arith, min, take, drop, is_empty, length,
  length-take, length-drop, length-drop-lt, nil_of_length, saturating_add, u64_max, usize_max,
}
use temporal_nbd.Errors.{TransportError}
use temporal_nbd.Transport.{BlockWrite}
use temporal_nbd.Session.Backoff.{capped_attempts}
use temporal_nbd.Session.RetryLaws.{Ends, retry_rule}
use temporal_nbd.Session.Service.{Service, VolumeSession, Session}
use temporal_nbd.Session.Requests.{
  count_batch, ensure_connected, pause, write_round, run_write_batch_rpc_with_retry, write_chunks,
  run_write_batch_with_retry, max_writes_per_write_batch_rpc,
}
use temporal_nbd.Session.Payload.{payload, summary-payload, payload-split, payload-take-drop}
use temporal_nbd.Session.RequestLaws.{Reply-cases, refused_round-Ends}

module _ {W : Service} where
  -- The counters fit into 64 bits, as their type says.
  pub record IsCounted (s : VolumeSession W) : Type 0 where
    pub rpcs_bound : s.write_rpc_sent ≤ u64_max
    pub bytes_bound : s.write_payload_bytes_sent ≤ u64_max
    pub blocks_bound : s.write_blocks_sent ≤ u64_max

  -- From one session to another, requests, bytes and blocks were added to the counters.
  abbrev pub Adds : (rpcs bytes blocks : ℕ) → VolumeSession W → VolumeSession W → Type 0
  Adds rpcs bytes blocks before after =
      (after.write_rpc_sent ≡ saturating_add before.write_rpc_sent rpcs)
      × (after.write_payload_bytes_sent ≡ saturating_add before.write_payload_bytes_sent bytes)
      × (after.write_blocks_sent ≡ saturating_add before.write_blocks_sent blocks)

  -- A batch in requests of 64 writes: all were counted where it is acknowledged, and where it fails,
  -- those before the one that failed.
  abbrev pub Counts :
      List BlockWrite
      → VolumeSession W
      → Result (Unit {0}) TransportError
      → VolumeSession W
      → Type 0
  Counts ws before (ok _) after = Adds ((length ws + 63) / 64) (payload ws) (length ws) before after
  Counts ws before (err x) after =
      (sent : ℕ) × (sent * 64 < length ws)
      × Adds sent (payload (take (sent * 64) ws)) (sent * 64) before after

  Adds-none : (s : VolumeSession W) → IsCounted s → Adds 0 0 0 s s
  Adds-none s b =
      (omega (arith, b.rpcs_bound), omega (arith, b.bytes_bound), omega (arith, b.blocks_bound))

  -- The counters are those of `before`.
  abbrev Same : VolumeSession W → Session W → Type 0
  Same before state = Adds 0 0 0 before state.0

  abbrev RpcPost :
      List BlockWrite → VolumeSession W → Result (Unit {0}) TransportError → Session W → Type 0
  RpcPost ws before (ok _) state = Adds 1 (payload ws) (length ws) before state.0
  RpcPost ws before (err x) state = Same before state

  connected-Same :
      (before : VolumeSession W) (state : Session W)
      → Same before state
      → Same before (ensure_connected W state).1
  unfolding ensure_connected
  connected-Same before state h =
      let (s, w) = state in
      elim (Option-cases s.client) [
        | inr (client, p) ↦ rw (p, ensure_connected) h
        | inl p ↦
            elim (Result-cases
              (W.connect s.endpoint_url s.config.connect_timeout s.config.rpc_timeout w).0) [
                | inl (client, q) ↦ rw (p, q, ensure_connected) h
                | inr (x, q) ↦ rw (p, q, ensure_connected) h
              ]
      ]

  write_round-Ends :
      (ws : List BlockWrite) (bytes : ℕ) (before : VolumeSession W)
      → bytes ≡ min (payload ws) usize_max
      → (state : Session W) → Same before state
      → Ends
          (Same before)
          (RpcPost ws before)
          (write_round W ws bytes state).0
          (write_round W ws bytes state).1
  unfolding write_round
  write_round-Ends ws bytes before e state h =
      let (s, w) = (ensure_connected W state).1 in
      let c = s.config in
      let connected = connected-Same before state h in
      let (rpcs, bytes_so_far, blocks) = connected in
      let counted : Adds 1 (payload ws) (length ws) before (count_batch W ws bytes s) =
        (omega (arith, rpcs), omega (arith, bytes_so_far, e), omega (arith, blocks)) in
      elim (Result-cases (ensure_connected W state).0) [
        | inr (x, p) ↦ rw (p, write_round) (connected, connected)
        | inl (client, p) ↦
            elim (Reply-cases (W.write_batch c.rpc_timeout client c.namespace c.volume_id ws w).0) [
              | inl (u, q) ↦ rw (p, q, write_round) counted
              | inr (inl (status, q)) ↦
                  rw (p, q, write_round)
                    (refused_round-Ends W "WriteBatch" status (Same before) (RpcPost ws before) _
                      connected (λ x. connected))
              | inr (inr q) ↦ rw (p, q, write_round) (connected, connected)
            ]
      ]

  run_rpc-RpcPost :
      (ws : List BlockWrite) (state : Session W)
      → is_empty ws ≡ false
      → IsCounted state.0
      → let out = run_write_batch_rpc_with_retry W ws state in RpcPost ws state.0 out.0 out.1
  unfolding run_write_batch_rpc_with_retry
  run_rpc-RpcPost [] state e b = cc
  run_rpc-RpcPost (x ∷ xs) state e b =
      let bytes = summary-payload (x ∷ xs) (0, u64_max, 0) (omega arith) in
      retry_rule (write_round W (x ∷ xs) _) (pause W) (capped_attempts state.0.config.retry_config)
        _ (Same state.0) (RpcPost (x ∷ xs) state.0)
        (write_round-Ends (x ∷ xs) _ state.0 (omega (arith, bytes))) (λ i s h. h) state
        (omega arith) (Adds-none state.0 b)

  -- The first request is counted, and then the others.
  Counts-drop :
      (ws : List BlockWrite) (before middle after : VolumeSession W)
      (answer : Result (Unit {0}) TransportError)
      → is_empty ws ≡ false
      → Adds 1 (payload (take 64 ws)) (length (take 64 ws)) before middle
      → Counts (drop 64 ws) middle answer after
      → Counts ws before answer after
  Counts-drop [] before middle after answer e first rest = cc
  Counts-drop (w ∷ ws) before middle after (ok _) e (p, q, r) (p', q', r') =
      let long = length-drop 64 (w ∷ ws) in
      let whole = length-take 64 (w ∷ ws) in
      let split : payload (w ∷ ws) ≡ payload (take 64 (w ∷ ws)) + payload (drop 64 (w ∷ ws)) =
        payload-take-drop 64 (w ∷ ws) in
      (omega (arith, p, p', long), omega (arith, q, q', split), omega (arith, r, r', long, whole))
  Counts-drop (w ∷ ws) before middle after (err x) e (p, q, r) (sent, l, (p', q', r')) =
      let long = length-drop 64 (w ∷ ws) in
      let whole = length-take 64 (w ∷ ws) in
      let split = payload-split 64 (sent * 64) (w ∷ ws) in
      let next : suc sent * 64 ≡ 64 + sent * 64 = omega arith in
      (
        suc sent,
        omega (arith, l, long),
        (
          omega (arith, p, p'),
          rw next (omega (arith, q, q', split)),
          omega (arith, r, r', l, long, whole),
        ),
      )

  -- What is added to counters leaves them in their type.
  Adds-IsCounted :
      (rpcs bytes blocks : ℕ) (before after : VolumeSession W)
      → Adds rpcs bytes blocks before after
      → IsCounted after
  Adds-IsCounted rpcs bytes blocks before after (p, q, r) = record {
    rpcs_bound = omega (arith, p);
    bytes_bound = omega (arith, q);
    blocks_bound = omega (arith, r);
  }

  write_chunks-Counts :
      (fuel : ℕ) (ws : List BlockWrite) (state : Session W)
      → length ws ≤ fuel
      → IsCounted state.0
      → let out = write_chunks W fuel ws state in Counts ws state.0 out.0 out.1.0
  unfolding write_chunks
  write_chunks-Counts zero ws state l b = rw (nil_of_length ws l) (Adds-none state.0 b)
  write_chunks-Counts (suc fuel) [] state l b = Adds-none state.0 b
  write_chunks-Counts (suc fuel) (w ∷ ws) state l b =
      let chunk = take max_writes_per_write_batch_rpc (w ∷ ws) in
      let rest = drop max_writes_per_write_batch_rpc (w ∷ ws) in
      let sent = run_rpc-RpcPost chunk state refl b in
      let (answer, state') = run_write_batch_rpc_with_retry W chunk state in
      elim (Result-cases answer) [
        | inr (x, q) ↦
            rw (q, write_chunks)
              (0, omega arith, subst (λ r. RpcPost chunk state.0 r state') q sent)
        | inl (u, q) ↦
            let counted = subst (λ r. RpcPost chunk state.0 r state') q sent in
            rw (q, write_chunks)
              (Counts-drop (w ∷ ws) state.0 state'.0 _ _ refl counted (
                write_chunks-Counts fuel rest state' (length-drop-lt 63 fuel (w ∷ ws) refl l)
                  (Adds-IsCounted _ _ _ state.0 state'.0 counted)))
      ]

  -- The counters of a session after a batch. Where the batch is acknowledged, they have grown by the
  -- requests of 64 writes that it takes, its bytes and its blocks; where it fails, by those of the
  -- requests before the one that failed, which are not all. They stop at the greatest number of 64
  -- bits, within which they are at the start; requests that were repeated count once.
  pub run_write_batch-Counts :
      (ws : List BlockWrite) (state : Session W)
      → IsCounted state.0
      → let out = run_write_batch_with_retry W ws state in Counts ws state.0 out.0 out.1.0
  unfolding run_write_batch_with_retry
  run_write_batch-Counts [] state b = Adds-none state.0 b
  run_write_batch-Counts (w ∷ ws) state b =
      write_chunks-Counts (length (w ∷ ws)) (w ∷ ws) state (omega arith) b
