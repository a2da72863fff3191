-- ===== src/Create/Laws.antt =====
-- When the command reports success.
use temporal_nbd.Prelude.{
  ◌≡◌, ◌≤◌, ◌<◌, Option-cases, inl, inr, true, false, Option, some, ok, arith,
}
use temporal_nbd.Session.Service.{Reply, answered, refused, timed_out}
use temporal_nbd.Session.Opening.{same_text}
use temporal_nbd.Create.{
  CreateVolumeConfig, CreateVolumeOutcome, created, existed, CreateVolumeResponse, CreateService,
  chosen_request_id, i64_max, i32_max, is_already_exists, judge_reply, send_create,
  run_create_volume, normalize_endpoint,
}

module _ (W : CreateService) (config : CreateVolumeConfig) where
  -- A reply that confirms the outcome.
  abbrev pub Confirms : CreateVolumeOutcome → Reply CreateVolumeResponse → Type 0
  Confirms (created run_id) (answered r) =
      (r.run_id ≡ run_id)
      × (same_text r.volume_id config.volume_id ≡ true)
      × (same_text run_id "" ≡ false)
  Confirms (created run_id) (refused status) = ⊥
  Confirms (created run_id) timed_out = ⊥
  Confirms existed (refused status) =
      (is_already_exists status.code ≡ true) × (config.if_not_exists ≡ true)
  Confirms existed (answered r) = ⊥
  Confirms existed timed_out = ⊥

  judge_reply-Confirms :
      (reply : Reply CreateVolumeResponse) (outcome : CreateVolumeOutcome)
      → judge_reply W config reply ≡ ok outcome
      → Confirms outcome reply
  unfolding judge_reply
  judge_reply-Confirms (answered r) (created run_id) h = ground arith
  judge_reply-Confirms (answered r) existed h = ground arith
  judge_reply-Confirms (refused status) (created run_id) h = ground arith
  judge_reply-Confirms (refused status) existed h = ground arith
  judge_reply-Confirms timed_out o h = cc

  -- The service's reply over a connection.
  abbrev pub reply_to_create : W.Client → W.State → Reply CreateVolumeResponse
  reply_to_create client w =
      (W.create_volume config.rpc_timeout client config.namespace config.volume_id config.size_bytes
        config.block_size_bytes (chosen_request_id W config.request_id w) w).0

  send_create-ok :
      (client : W.Client) (w : W.State) (outcome : CreateVolumeOutcome)
      → (send_create W config client w).0 ≡ ok outcome
      → (config.size_bytes ≤ i64_max)
        × (config.block_size_bytes ≤ i32_max)
        × (judge_reply W config (reply_to_create client w) ≡ ok outcome)
  unfolding send_create
  send_create-ok client w outcome h = ground arith

  module _ (w : W.State) (outcome : CreateVolumeOutcome) where
    abbrev connection : Option W.Client × W.State
    connection =
        W.connect (normalize_endpoint config.frontend_endpoint) config.connect_timeout
          config.rpc_timeout w

    -- The command reports success only for a positive size and a well-formed endpoint, with sizes
    -- that the signed fields of the request can hold, and only if a connection was made and the
    -- service confirmed the outcome over it: a created volume by a response with the volume's name
    -- and the run id that is reported, which is not empty, and a volume that existed by that status,
    -- where the flag allows it.
    pub run_create_volume-Confirms :
        (run_create_volume W config w).0 ≡ ok outcome
        → (0 < config.size_bytes)
          × (W.is_endpoint (normalize_endpoint config.frontend_endpoint) ≡ true)
          × (config.size_bytes ≤ i64_max)
          × (config.block_size_bytes ≤ i32_max)
          × (client : W.Client) × (connection.0 ≡ some client)
          × Confirms outcome (reply_to_create client connection.1)
    unfolding run_create_volume
    run_create_volume-Confirms h = elim (Option-cases connection.0) [
      | inl none_made ↦ ground (arith, none_made, h)
      | inr (client, made) ↦
          let sent : (0 < config.size_bytes)
              × (W.is_endpoint (normalize_endpoint config.frontend_endpoint) ≡ true)
              × ((send_create W config client connection.1).0 ≡ ok outcome) =
            ground (arith, made, h) in
          let r = send_create-ok client connection.1 outcome sent.2 in
          (sent.0, sent.1, r.0, r.1, client, made, judge_reply-Confirms _ outcome r.2)
    ]
