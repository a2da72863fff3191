-- ===== src/Session/OpeningLaws.antt =====
-- An opened session: its geometry is well formed, and an engine over it starts on the volume.
use temporal_nbd.Prelude.{
  ℤ, pos, negsuc, ℕ, ◌≡◌, ◌≤◌, refl, sym, subst, ◌∙◌, String, List, some, ◌>>=◌, ◌⊎◌, inl, inr, ok,
  err, Result, Result-cases, arith, Bool-cases, u64_max, u32_max,
}
use temporal_nbd.Errors.{TransportError}
use temporal_nbd.Geometry
use temporal_nbd.Geometry.{VolumeGeometry}
use temporal_nbd.Geometry.Laws.{IsSized, new_exact}
use temporal_nbd.Engine.State.{EngineConfig, new}
use temporal_nbd.Engine.View.{view, IsValid}
use temporal_nbd.Engine.Coherence.{new-IsValid}
use temporal_nbd.Session.Backoff.{capped_attempts}
use temporal_nbd.Session.RetryLaws.{Ends, retry_rule}
use temporal_nbd.Session.Service.{
  Service, OpenVolumeResponse, VolumeSessionConfig, VolumeSession, is_retryable_status,
}
use temporal_nbd.Session.Opening.{
  to_unsigned, new_session, opened_geometry, open_round, connect_and_open, sleep_before_retry,
  normalize_endpoint,
}
use temporal_nbd.Session.Requests.{session_transport}
use temporal_nbd.Session.Volume.{VolumeService, sleep_before_retry_keeps}
use temporal_nbd.Session.RequestLaws.{Reply-cases}
use temporal_nbd.Session.Store.{session_store}

to_unsigned-some :
    (greatest : ℕ) (z : ℤ) {n : ℕ} → to_unsigned greatest z ≡ some n → (z ≡ pos n) × (n ≤ greatest)
to_unsigned-some greatest (pos m) h = ground arith
to_unsigned-some greatest (negsuc m) h = cc

ℤ-cases : (z : ℤ) → ((n : ℕ) × (z ≡ pos n)) ⊎ ((n : ℕ) × (z ≡ negsuc n))
ℤ-cases (pos n) = inl (n, refl)
ℤ-cases (negsuc n) = inr (n, refl)

new-IsSized :
    (size block : ℕ) (g : VolumeGeometry)
    → size ≤ u64_max
    → block ≤ u32_max
    → Geometry.new size block ≡ ok g
    → IsSized g × (g.block_size_bytes ≡ block)
new-IsSized size block g a b h = let x = (new_exact size block g a b).0 h in (x.0, x.2)

-- A response that is accepted has a positive number of blocks, of its own block size.
opened_geometry-IsSized :
    (volume_id : String) (response : OpenVolumeResponse) (g : VolumeGeometry)
    → opened_geometry volume_id response ≡ ok g
    → IsSized g × (response.block_size_bytes ≡ pos g.block_size_bytes)
unfolding opened_geometry
opened_geometry-IsSized volume_id response g h = elim (ℤ-cases response.size_bytes) [
  | inr (m, p) ↦ ground arith
  | inl (m, p) ↦ elim (ℤ-cases response.block_size_bytes) [
    | inr (n, q) ↦ ground arith
    | inl (n, q) ↦ elim (Result-cases (Geometry.new m n)) [
      | inr (x, r) ↦ ground arith
      | inl (k, r) ↦ ground (arith, new-IsSized m n k)
    ]
  ]
]

module _ {W : Service} (config : VolumeSessionConfig W) {block_size : ℕ}
    (V : VolumeService W config.namespace config.volume_id block_size) where
  -- A session that `connect_and_open` may return, on a world whose volume is `v`.
  abbrev pub IsOpened : (ℕ → List ℕ) → Result (VolumeSession W) TransportError → W.State → Type 0
  IsOpened v (ok s) w =
      IsSized s.geometry
      × (s.geometry.block_size_bytes ≡ block_size)
      × (s.config ≡ config)
      × V.IsSound w
      × ((lba : ℕ) → V.contents w lba ≡ v lba)
  IsOpened v (err x) w = Unit

  abbrev Kept : (ℕ → List ℕ) → W.State → Type 0
  Kept v w = V.IsSound w × ((lba : ℕ) → V.contents w lba ≡ v lba)

  response-IsOpened :
      (v : ℕ → List ℕ) (response : OpenVolumeResponse) (client : W.Client) (url : String)
      (w : W.State)
      → Kept v w
      → response.block_size_bytes ≡ pos block_size
      → IsOpened v
          (opened_geometry config.volume_id response >>= λ geometry.
            ok (new_session W config url client geometry))
          w
  response-IsOpened v response client url w k b =
      elim (Result-cases (opened_geometry config.volume_id response)) [
        | inr (x, h) ↦ rw h tt
        | inl (g, h) ↦
            let sized = opened_geometry-IsSized config.volume_id response g h in
            let same : pos g.block_size_bytes ≡ pos block_size = sym sized.1 ∙ b in
            rw h (sized.0, cc, refl, k.0, k.1)
      ]

  open_round-Ends :
      (v : ℕ → List ℕ) (w : W.State)
      → Kept v w
      → Ends (Kept v) (IsOpened v) (open_round W config w).0 (open_round W config w).1
  unfolding open_round
  open_round-Ends v w k =
      let url = normalize_endpoint config.frontend_endpoint in
      let connection = W.connect url config.connect_timeout config.rpc_timeout w in
      let connected = V.connect_keeps url config.connect_timeout config.rpc_timeout w k.0 in
      let kept : Kept v connection.1 = (connected.0, λ lba. connected.1 lba ∙ k.1 lba) in
      elim (Result-cases connection.0) [
        | inr (x, h) ↦ rw (h, open_round) (kept, tt)
        | inl (client, h) ↦
            let reply =
              W.open_volume config.rpc_timeout client config.namespace config.volume_id
                connection.1 in
            let asked = V.open_keeps config.rpc_timeout client connection.1 kept.0 in
            let after : Kept v reply.1 = (asked.0, λ lba. asked.1 lba ∙ kept.1 lba) in
            elim (Reply-cases reply.0) [
              | inl (response, q) ↦
                  rw (h, q, open_round)
                    (response-IsOpened v response client url reply.1 after
                      (V.open_answer config.rpc_timeout client connection.1 kept.0 q))
              | inr (inr q) ↦ rw (h, q, open_round) (after, tt)
              | inr (inl (status, q)) ↦ elim (Bool-cases (is_retryable_status status.code)) [
                | inl r ↦ rw (h, q, r, open_round) (after, tt)
                | inr r ↦ rw (h, q, r, open_round) tt
              ]
            ]
      ]

  connect_and_open-IsOpened :
      (w : W.State)
      → V.IsSound w
      → let out = connect_and_open W config w in IsOpened (V.contents w) out.0 out.1
  unfolding connect_and_open
  connect_and_open-IsOpened w h =
      retry_rule (open_round W config) (sleep_before_retry W config)
        (capped_attempts config.retry_config) _ (Kept (V.contents w)) (IsOpened (V.contents w))
        (open_round-Ends (V.contents w))
        (λ i s k.
          let slept = sleep_before_retry_keeps config V config i s k.0 in
          (slept.0, λ lba. slept.1 lba ∙ k.1 lba))
        w (omega arith) (h, λ lba. refl)

  -- An engine on a session that was opened, also after retries, satisfies the invariant, and its
  -- client sees the service's volume as it was before.
  pub connect_and_open-IsValid :
      (w : W.State) (s : VolumeSession W) (engine_config : EngineConfig)
      → V.IsSound w
      → (connect_and_open W config w).0 ≡ ok s
      → let w' = (connect_and_open W config w).1 in
        let e = new (session_transport W) s.geometry (s, w') engine_config in
        IsValid (session_store config V) e
        × ((lba : ℕ) → view (session_store config V) e lba ≡ V.contents w lba)
  unfolding session_store
  connect_and_open-IsValid w s engine_config h q =
      let w' = (connect_and_open W config w).1 in
      let opened = subst (λ r. IsOpened (V.contents w) r w') q (connect_and_open-IsOpened w h) in
      let started =
        new-IsValid (session_store config V) s.geometry (s, w') engine_config opened.0 opened.1
          (opened.3, opened.2) in
      (started.0, λ lba. started.1 lba ∙ opened.4 lba)
