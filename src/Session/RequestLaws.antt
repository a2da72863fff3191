-- ===== src/Session/RequestLaws.antt =====
-- The requests of a session over a volume: what a read answers and what a batch stores, whatever
-- rounds were refused or timed out before.
use temporal_nbd.Prelude.{
  ℕ, ◌≡◌, refl, subst, ◌∙◌, ◌⊎◌, [], Bool-cases, inl, inr, String, Result, ok, err, Result-cases,
  arith,
}
use temporal_nbd.Errors.{TransportError}
use temporal_nbd.Transport.{Bytes, Volume, blocks}
use temporal_nbd.Transport.Blocks.{blocks_ext}
use temporal_nbd.Transport.Laws.{Misses}
use temporal_nbd.Session.Backoff.{capped_attempts}
use temporal_nbd.Session.RetryLaws.{Ends, retry_rule}
use temporal_nbd.Session.Service.{
  Service, Status, Reply, answered, refused, timed_out, VolumeSessionConfig, Session,
  is_retryable_status,
}
use temporal_nbd.Session.Requests.{
  ensure_connected, pause, refused_round, read_round, run_read_blocks_with_retry,
}
use temporal_nbd.Session.Volume.{VolumeService, IsOpen, Kept, pause-Kept, ensure_connected-Kept}

pub Reply-cases :
    {A : Type 0} (r : Reply A)
    → ((a : A) × (r ≡ answered a)) ⊎ ((status : Status) × (r ≡ refused status)) ⊎ (r ≡ timed_out)
Reply-cases (answered a) = inl (a, refl)
Reply-cases (refused status) = inr (inl (status, refl))
Reply-cases timed_out = inr (inr refl)

pub refused_round-Ends :
    (W : Service) {A : Type 0} (operation : String) (status : Status) (P : Session W → Type 0)
    (Q : Result A TransportError → Session W → Type 0) (state : Session W)
    → P state
    → ((x : TransportError) → Q (err x) state)
    → Ends P Q (refused_round W operation status) state
refused_round-Ends W operation status P Q state p q =
    elim (Bool-cases (is_retryable_status status.code)) [
      | inl h ↦ rw (h, refused_round) (p, q _)
      | inr h ↦ rw (h, refused_round) (q _)
    ]

module _ {W : Service} (config : VolumeSessionConfig W) {block_size : ℕ}
    (V : VolumeService W config.namespace config.volume_id block_size) where
  module _ (c : VolumeSessionConfig W) (p : c ≡ config) (client : W.Client) (start count : ℕ)
      (w : W.State) (h : V.IsSound w) where
    read_keeps_at :
        let w' = (W.read_blocks c.rpc_timeout client c.namespace c.volume_id start count w).1 in
        V.IsSound w' × ((lba : ℕ) → V.contents w' lba ≡ V.contents w lba)
    read_keeps_at = rw p (V.read_keeps config.rpc_timeout client start count w h)

    read_answer_at :
        {bytes : Bytes}
        → (W.read_blocks c.rpc_timeout client c.namespace c.volume_id start count w).0
          ≡ answered bytes
        → bytes ≡ blocks (V.contents w) start count
    read_answer_at {bytes} e = V.read_answer config.rpc_timeout client start count w h (
        subst
          (λ c.
            (W.read_blocks c.rpc_timeout client c.namespace c.volume_id start count w).0
            ≡ answered bytes)
          p e)

  -- What a read has to answer, and what it leaves.
  abbrev pub ReadPost : Volume → ℕ → ℕ → Result Bytes TransportError → Session W → Type 0
  ReadPost v start count (ok bytes) state =
      Kept config V [] v state × (bytes ≡ blocks v start count)
  ReadPost v start count (err x) state = Kept config V [] v state

  read_round-Ends :
      (v : Volume) (start count : ℕ) (state : Session W)
      → Kept config V [] v state
      → Ends
          (Kept config V [] v)
          (ReadPost v start count)
          (read_round W start count state).0
          (read_round W start count state).1
  unfolding read_round
  read_round-Ends v start count state k =
      let (s, w) = (ensure_connected W state).1 in
      let c = s.config in
      let connected : Kept config V [] v (s, w) = ensure_connected-Kept config V [] v state k in
      let same = connected.0.1 in
      let sound = connected.0.0 in
      elim (Result-cases (ensure_connected W state).0) [
        | inr (x, h) ↦ rw (h, read_round) (connected, connected)
        | inl (client, h) ↦
            let keeps = read_keeps_at c same client start count w sound in
            let kept_here : (lba : ℕ) → Misses lba [] → V.contents _ lba ≡ v lba =
              λ lba m. keeps.1 lba ∙ connected.1 lba m in
            elim (Reply-cases
              (W.read_blocks c.rpc_timeout client c.namespace c.volume_id start count w).0) [
                | inl (bytes, q) ↦
                    rw (h, q, read_round)
                      (
                        ((keeps.0, same), kept_here),
                        read_answer_at c same client start count w sound q
                            ∙ blocks_ext (V.contents w) v start count (λ j a b. connected.1 j tt),
                      )
                | inr (inl (status, q)) ↦
                    rw (h, q, read_round)
                      (refused_round-Ends W "ReadBlocks" status (Kept config V [] v)
                        (ReadPost v start count) _ ((keeps.0, same), kept_here)
                        (λ x. ((keeps.0, same), kept_here)))
                | inr (inr q) ↦
                    rw (h, q, read_round)
                      (((keeps.0, same), kept_here), ((keeps.0, same), kept_here))
              ]
      ]

  run_read-ReadPost :
      (v : Volume) (start count : ℕ) (state : Session W)
      → Kept config V [] v state
      → let out = run_read_blocks_with_retry W start count state in
        ReadPost v start count out.0 out.1
  unfolding run_read_blocks_with_retry
  run_read-ReadPost v start count state k =
      retry_rule (read_round W start count) (pause W) (capped_attempts state.0.config.retry_config)
        _ (Kept config V [] v) (ReadPost v start count) (read_round-Ends v start count)
        (pause-Kept config V [] v) state (omega arith) k

  Kept-of_post :
      (v : Volume) (start count : ℕ) (answer : Result Bytes TransportError) (state : Session W)
      → ReadPost v start count answer state
      → Kept config V [] v state
  Kept-of_post v start count (ok bytes) state p = p.0
  Kept-of_post v start count (err x) state p = p

  module _ (start count : ℕ) (state : Session W) (o : IsOpen config V state) where
    abbrev pub read_out : Result Bytes TransportError × Session W
    read_out = run_read_blocks_with_retry W start count state

    read_post : ReadPost (V.contents state.1) start count read_out.0 read_out.1
    read_post = run_read-ReadPost (V.contents state.1) start count state (o, λ lba m. refl)

    -- However a session's read ends, the session stays open and the volume stays as it was.
    pub run_read_blocks_keeps :
        IsOpen config V read_out.1
        × ((lba : ℕ) → V.contents read_out.1.1 lba ≡ V.contents state.1 lba)
    run_read_blocks_keeps =
        let k = Kept-of_post _ start count read_out.0 read_out.1 read_post in
        (k.0, λ lba. k.1 lba tt)

    -- The bytes that an open session's read answers with are the blocks of the volume, whatever
    -- attempts failed before.
    pub run_read_blocks_answer :
        {bytes : Bytes} → read_out.0 ≡ ok bytes → bytes ≡ blocks (V.contents state.1) start count
    run_read_blocks_answer e =
        (subst (λ r. ReadPost (V.contents state.1) start count r read_out.1) e read_post).1
