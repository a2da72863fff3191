-- ===== src/Session/Volume.antt =====
-- What a session may assume of the service behind the client: a volume that each request reads or
-- writes. And what the parts of a request keep of it.
use temporal_nbd.Prelude.{
  pos, ℕ, ◌≡◌, refl, ◌∙◌, List, Option-cases, Bool-cases, inl, inr, String, Result-cases, length,
}
use temporal_nbd.Transport.{Bytes, BlockWrite, Volume, store_all, blocks}
use temporal_nbd.Transport.Laws.{Misses, AreBlocks}
use temporal_nbd.Session.Backoff.{delay_for_attempt}
use temporal_nbd.Session.Service.{
  Service, answered, OpenVolumeResponse, VolumeSessionConfig, Session,
}
use temporal_nbd.Session.Opening.{sleep_before_retry}
use temporal_nbd.Session.Requests.{ensure_connected, pause}

-- The service keeps blocks of one size under a namespace and the name of a volume. A read that is
-- answered has the blocks asked for, a batch that is answered is stored as a whole. A batch that
-- is refused or times out may be stored, in part or as a whole, but touches no other address.
pub record VolumeService (W : Service) (namespace volume_id : String) (block_size : ℕ)
    : Type 1 where
  pub IsSound : W.State → Type 0
  pub contents : W.State → Volume
  pub length-contents : (s : W.State) (lba : ℕ) → IsSound s → length (contents s lba) ≡ block_size
  pub sleep_keeps :
      (d : ℕ) (s : W.State)
      → IsSound s
      → IsSound (W.sleep d s) × ((lba : ℕ) → contents (W.sleep d s) lba ≡ contents s lba)
  pub gen_range_keeps :
      (low high : W.floats.F64) (s : W.State)
      → IsSound s
      → IsSound (W.gen_range low high s).1
        × ((lba : ℕ) → contents (W.gen_range low high s).1 lba ≡ contents s lba)
  pub connect_keeps :
      (url : String) (connect_timeout rpc_timeout : ℕ) (s : W.State)
      → IsSound s
      → IsSound (W.connect url connect_timeout rpc_timeout s).1
        × ((lba : ℕ)
            → contents (W.connect url connect_timeout rpc_timeout s).1 lba ≡ contents s lba)
  pub open_keeps :
      (limit : ℕ) (client : W.Client) (s : W.State)
      → IsSound s
      → let s' = (W.open_volume limit client namespace volume_id s).1 in
        IsSound s' × ((lba : ℕ) → contents s' lba ≡ contents s lba)
  pub open_answer :
      (limit : ℕ) (client : W.Client) (s : W.State) {response : OpenVolumeResponse}
      → IsSound s
      → (W.open_volume limit client namespace volume_id s).0 ≡ answered response
      → response.block_size_bytes ≡ pos block_size
  pub read_keeps :
      (limit : ℕ) (client : W.Client) (start count : ℕ) (s : W.State)
      → IsSound s
      → let s' = (W.read_blocks limit client namespace volume_id start count s).1 in
        IsSound s' × ((lba : ℕ) → contents s' lba ≡ contents s lba)
  pub read_answer :
      (limit : ℕ) (client : W.Client) (start count : ℕ) (s : W.State) {bytes : Bytes}
      → IsSound s
      → (W.read_blocks limit client namespace volume_id start count s).0 ≡ answered bytes
      → bytes ≡ blocks (contents s) start count
  pub write_keeps :
      (limit : ℕ) (client : W.Client) (ws : List BlockWrite) (s : W.State)
      → IsSound s
      → AreBlocks block_size ws
      → let s' = (W.write_batch limit client namespace volume_id ws s).1 in
        IsSound s' × ((lba : ℕ) → Misses lba ws → contents s' lba ≡ contents s lba)
  pub write_answer :
      (limit : ℕ) (client : W.Client) (ws : List BlockWrite) (lba : ℕ) (s : W.State) {u : Unit {0}}
      → IsSound s
      → AreBlocks block_size ws
      → (W.write_batch limit client namespace volume_id ws s).0 ≡ answered u
      → contents (W.write_batch limit client namespace volume_id ws s).1 lba
        ≡ store_all ws (contents s) lba

module _ {W : Service} (config : VolumeSessionConfig W) {block_size : ℕ}
    (V : VolumeService W config.namespace config.volume_id block_size) where
  -- A session with this configuration on a world where the volume is in order.
  abbrev pub IsOpen : Session W → Type 0
  IsOpen state = V.IsSound state.1 × (state.0.config ≡ config)

  -- The volume is `v`, but for what the writes `ws` name.
  abbrev pub Kept : List BlockWrite → Volume → Session W → Type 0
  Kept ws v state = IsOpen state × ((lba : ℕ) → Misses lba ws → V.contents state.1 lba ≡ v lba)

  delay_for_attempt_keeps :
      (c : VolumeSessionConfig W) (attempt : ℕ) (w : W.State)
      → V.IsSound w
      → let w' = (delay_for_attempt W.gen_range c.retry_config attempt w).1 in
        V.IsSound w' × ((lba : ℕ) → V.contents w' lba ≡ V.contents w lba)
  unfolding delay_for_attempt
  delay_for_attempt_keeps c attempt w h =
      let ratio = c.retry_config.jitter_ratio in
      elim (Bool-cases (W.floats.le_f64 ratio W.floats.zero_f64)) [
        | inl p ↦ rw (p, delay_for_attempt) (h, λ lba. refl)
        | inr p ↦ rw (p, delay_for_attempt) (V.gen_range_keeps _ _ w h)
      ]

  pub sleep_before_retry_keeps :
      (c : VolumeSessionConfig W) (attempt : ℕ) (w : W.State)
      → V.IsSound w
      → V.IsSound (sleep_before_retry W c attempt w)
        × ((lba : ℕ) → V.contents (sleep_before_retry W c attempt w) lba ≡ V.contents w lba)
  unfolding sleep_before_retry
  sleep_before_retry_keeps c attempt w h =
      let drawn = delay_for_attempt_keeps c attempt w h in
      let slept = V.sleep_keeps _ _ drawn.0 in (slept.0, λ lba. slept.1 lba ∙ drawn.1 lba)

  pub pause-Kept :
      (ws : List BlockWrite) (v : Volume) (attempt : ℕ) (state : Session W)
      → Kept ws v state
      → Kept ws v (pause W attempt state)
  pause-Kept ws v attempt state k =
      let slept = sleep_before_retry_keeps state.0.config attempt state.1 k.0.0 in
      ((slept.0, k.0.1), λ lba m. slept.1 lba ∙ k.1 lba m)

  pub ensure_connected-Kept :
      (ws : List BlockWrite) (v : Volume) (state : Session W)
      → Kept ws v state
      → Kept ws v (ensure_connected W state).1
  unfolding ensure_connected
  ensure_connected-Kept ws v state k =
      let (s, w) = state in
      let connected =
        V.connect_keeps s.endpoint_url s.config.connect_timeout s.config.rpc_timeout w k.0.0 in
      elim (Option-cases s.client) [
        | inr (client, p) ↦ rw (p, ensure_connected) k
        | inl p ↦
            elim (Result-cases
              (W.connect s.endpoint_url s.config.connect_timeout s.config.rpc_timeout w).0) [
                | inl (client, q) ↦
                    rw (p, q, ensure_connected)
                      ((connected.0, k.0.1), λ lba m. connected.1 lba ∙ k.1 lba m)
                | inr (x, q) ↦
                    rw (p, q, ensure_connected)
                      ((connected.0, k.0.1), λ lba m. connected.1 lba ∙ k.1 lba m)
              ]
      ]
