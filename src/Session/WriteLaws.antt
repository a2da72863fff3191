-- ===== src/Session/WriteLaws.antt =====
-- The batches of a session over a volume: a batch that is acknowledged is stored as a whole, also
-- where rounds before were stored in part, and in parts of at most 64 writes.
use temporal_nbd.Prelude.{
  ℕ, zero, suc, ◌≤◌, ◌≡◌, refl, ap, subst, ◌∙◌, List, [], ◌∷◌, Bool-cases, inl, inr, Result, ok,
  err, Result-cases, arith, All-take, All-drop, take, drop, is_empty, length, length-drop-lt,
  nil_of_is_empty, nil_of_length,
}
use temporal_nbd.Errors.{TransportError}
use temporal_nbd.Transport.{BlockWrite, Volume, store_all}
use temporal_nbd.Transport.Laws.{Misses, AreBlocks}
use temporal_nbd.Transport.Batches.{store_all_agree, store_all-take, store_all-Misses}
use temporal_nbd.Session.Backoff.{capped_attempts}
use temporal_nbd.Session.RetryLaws.{Ends, retry_rule}
use temporal_nbd.Session.Service.{Service, answered, VolumeSessionConfig, Session}
use temporal_nbd.Session.Requests.{
  ensure_connected, pause, write_round, run_write_batch_rpc_with_retry, write_chunks,
  run_write_batch_with_retry, max_writes_per_write_batch_rpc,
}
use temporal_nbd.Session.Volume.{VolumeService, IsOpen, Kept, pause-Kept, ensure_connected-Kept}
use temporal_nbd.Session.RequestLaws.{Reply-cases, refused_round-Ends}

module _ {W : Service} (config : VolumeSessionConfig W) {block_size : ℕ}
    (V : VolumeService W config.namespace config.volume_id block_size) where
  module _ (c : VolumeSessionConfig W) (p : c ≡ config) (client : W.Client) (ws : List BlockWrite)
      (w : W.State) (h : V.IsSound w) (a : AreBlocks block_size ws) where
    write_keeps_at :
        let w' = (W.write_batch c.rpc_timeout client c.namespace c.volume_id ws w).1 in
        V.IsSound w' × ((lba : ℕ) → Misses lba ws → V.contents w' lba ≡ V.contents w lba)
    write_keeps_at = rw p (V.write_keeps config.rpc_timeout client ws w h a)

    write_answer_at :
        {u : Unit {0}} (lba : ℕ)
        → (W.write_batch c.rpc_timeout client c.namespace c.volume_id ws w).0 ≡ answered u
        → V.contents (W.write_batch c.rpc_timeout client c.namespace c.volume_id ws w).1 lba
          ≡ store_all ws (V.contents w) lba
    write_answer_at {u} lba e = rw p (
        V.write_answer config.rpc_timeout client ws lba w h a (
          subst
            (λ c. (W.write_batch c.rpc_timeout client c.namespace c.volume_id ws w).0 ≡ answered u)
            p e))

  -- What a batch has to answer, and what it leaves: where it fails, the addresses that it does not
  -- name.
  abbrev pub WritePost :
      List BlockWrite → Volume → Result (Unit {0}) TransportError → Session W → Type 0
  WritePost ws v (ok _) state =
      IsOpen config V state × ((lba : ℕ) → V.contents state.1 lba ≡ store_all ws v lba)
  WritePost ws v (err x) state = Kept config V ws v state

  write_round-Ends :
      (ws : List BlockWrite) (v : Volume) (payload_bytes : ℕ)
      → AreBlocks block_size ws
      → (state : Session W) → Kept config V ws v state
      → Ends
          (Kept config V ws v)
          (WritePost ws v)
          (write_round W ws payload_bytes state).0
          (write_round W ws payload_bytes state).1
  unfolding write_round
  write_round-Ends ws v payload_bytes a state k =
      let (s, w) = (ensure_connected W state).1 in
      let c = s.config in
      let connected : Kept config V ws v (s, w) = ensure_connected-Kept config V ws v state k in
      let same = connected.0.1 in
      let sound = connected.0.0 in
      elim (Result-cases (ensure_connected W state).0) [
        | inr (x, h) ↦ rw (h, write_round) (connected, connected)
        | inl (client, h) ↦
            let keeps = write_keeps_at c same client ws w sound a in
            let kept_here : (lba : ℕ) → Misses lba ws → V.contents _ lba ≡ v lba =
              λ lba m. keeps.1 lba m ∙ connected.1 lba m in
            elim (Reply-cases (W.write_batch c.rpc_timeout client c.namespace c.volume_id ws w).0) [
              | inl (u, q) ↦
                  rw (h, q, write_round)
                    (
                      (keeps.0, same),
                      λ lba.
                          write_answer_at c same client ws w sound a lba q
                          ∙ store_all_agree ws (V.contents w) v lba connected.1,
                    )
              | inr (inl (status, q)) ↦
                  rw (h, q, write_round)
                    (refused_round-Ends W "WriteBatch" status (Kept config V ws v) (WritePost ws v)
                      _ ((keeps.0, same), kept_here) (λ x. ((keeps.0, same), kept_here)))
              | inr (inr q) ↦
                  rw (h, q, write_round)
                    (((keeps.0, same), kept_here), ((keeps.0, same), kept_here))
            ]
      ]

  run_rpc-WritePost :
      (ws : List BlockWrite) (v : Volume) (state : Session W)
      → AreBlocks block_size ws
      → Kept config V ws v state
      → let out = run_write_batch_rpc_with_retry W ws state in WritePost ws v out.0 out.1
  unfolding run_write_batch_rpc_with_retry
  run_rpc-WritePost [] v state a k = (k.0, λ lba. k.1 lba tt)
  run_rpc-WritePost (x ∷ xs) v state a k =
      retry_rule (write_round W (x ∷ xs) _) (pause W) (capped_attempts state.0.config.retry_config)
        _ (Kept config V (x ∷ xs) v) (WritePost (x ∷ xs) v) (write_round-Ends (x ∷ xs) v _ a)
        (pause-Kept config V (x ∷ xs) v) state (omega arith) k

  -- The first chunk misses what the batch misses.
  Kept-take :
      (n : ℕ) (ws : List BlockWrite) (v : Volume) (state : Session W)
      → Kept config V (take n ws) v state
      → Kept config V ws v state
  Kept-take n ws v state k = (k.0, λ lba m. k.1 lba (All-take _ n ws m))

  WritePost-drop :
      (n : ℕ) (ws : List BlockWrite) (u v : Volume) (answer : Result (Unit {0}) TransportError)
      (state : Session W)
      → ((lba : ℕ) → u lba ≡ store_all (take n ws) v lba)
      → ((lba : ℕ) → Misses lba ws → u lba ≡ v lba)
      → WritePost (drop n ws) u answer state
      → WritePost ws v answer state
  WritePost-drop n ws u v (ok _) state h m k = (
    k.0,
    λ lba.
        k.1 lba
        ∙ store_all_agree (drop n ws) u (store_all (take n ws) v) lba (λ j _. h j)
        ∙ ap (λ f. f lba) (store_all-take n ws v),
  )
  WritePost-drop n ws u v (err x) state h m k =
      (k.0, λ lba misses. k.1 lba (All-drop _ n ws misses) ∙ m lba misses)

  write_chunks-WritePost :
      (fuel : ℕ) (ws : List BlockWrite) (v : Volume) (state : Session W)
      → length ws ≤ fuel
      → AreBlocks block_size ws
      → IsOpen config V state
      → ((lba : ℕ) → V.contents state.1 lba ≡ v lba)
      → let out = write_chunks W fuel ws state in WritePost ws v out.0 out.1
  unfolding write_chunks
  write_chunks-WritePost zero ws v state l a o k = rw (nil_of_length ws l) (o, k)
  write_chunks-WritePost (suc fuel) ws v state l a o k = elim (Bool-cases (is_empty ws)) [
    | inl e ↦ rw (e, write_chunks) (rw (nil_of_is_empty ws e) (o, k))
    | inr e ↦
        let chunk = take max_writes_per_write_batch_rpc ws in
        let sent =
          run_rpc-WritePost chunk v state (All-take _ max_writes_per_write_batch_rpc ws a)
            (o, λ lba m. k lba) in
        let (answer, state') = run_write_batch_rpc_with_retry W chunk state in
        elim (Result-cases answer) [
          | inr (x, q) ↦
              rw (e, q, write_chunks)
                (Kept-take max_writes_per_write_batch_rpc ws v state'
                  (subst (λ r. WritePost chunk v r state') q sent))
          | inl (u, q) ↦
              let stored = subst (λ r. WritePost chunk v r state') q sent in
              let rest = drop max_writes_per_write_batch_rpc ws in
              let u = V.contents state'.1 in
              let left : length rest ≤ fuel = length-drop-lt 63 fuel ws e l in
              let end =
                write_chunks-WritePost fuel rest u state' left
                  (All-drop _ max_writes_per_write_batch_rpc ws a) stored.0 (λ lba. refl) in
              rw (e, q, write_chunks)
                (WritePost-drop max_writes_per_write_batch_rpc ws u v _ _ stored.1
                  (λ lba m.
                    stored.1 lba
                    ∙ store_all-Misses chunk v lba (All-take _ max_writes_per_write_batch_rpc ws m))
                  end)
        ]
  ]

  run_batch-WritePost :
      (ws : List BlockWrite) (state : Session W)
      → AreBlocks block_size ws
      → IsOpen config V state
      → let out = run_write_batch_with_retry W ws state in
        WritePost ws (V.contents state.1) out.0 out.1
  unfolding run_write_batch_with_retry
  run_batch-WritePost ws state a o = elim (Bool-cases (is_empty ws)) [
    | inl e ↦ rw (e, run_write_batch_with_retry) (rw (nil_of_is_empty ws e) (o, λ lba. refl))
    | inr e ↦
        rw (e, run_write_batch_with_retry)
          (write_chunks-WritePost (length ws) ws (V.contents state.1) state (omega arith) a o
            (λ lba. refl))
  ]

  IsOpen-of_post :
      (ws : List BlockWrite) (v : Volume) (answer : Result (Unit {0}) TransportError)
      (state : Session W)
      → WritePost ws v answer state
      → IsOpen config V state
  IsOpen-of_post ws v (ok u) state p = p.0
  IsOpen-of_post ws v (err x) state p = p.0

  Misses-of_post :
      (ws : List BlockWrite) (v : Volume) (answer : Result (Unit {0}) TransportError)
      (state : Session W) (lba : ℕ)
      → WritePost ws v answer state
      → Misses lba ws
      → V.contents state.1 lba ≡ v lba
  Misses-of_post ws v (ok u) state lba p m = p.1 lba ∙ store_all-Misses ws v lba m
  Misses-of_post ws v (err x) state lba p m = p.1 lba m

  module _ (ws : List BlockWrite) (state : Session W) (a : AreBlocks block_size ws)
      (o : IsOpen config V state) where
    -- A batch of blocks that an open session acknowledges is stored as a whole and in its order,
    -- however many requests it took, also where some of them were refused or timed out and were
    -- stored in part before they were repeated.
    pub run_write_batch_stores :
        (lba : ℕ)
        → (run_write_batch_with_retry W ws state).0 ≡ ok tt
        → V.contents (run_write_batch_with_retry W ws state).1.1 lba
          ≡ store_all ws (V.contents state.1) lba
    run_write_batch_stores lba e =
        let out = run_write_batch_with_retry W ws state in
        (subst (λ r. WritePost ws (V.contents state.1) r out.1) e
            (run_batch-WritePost ws state a o)).1
          lba

    -- However a batch of blocks ends in an open session, the blocks at addresses that it does not
    -- name stay.
    pub run_write_batch-Misses :
        (lba : ℕ)
        → Misses lba ws
        → V.contents (run_write_batch_with_retry W ws state).1.1 lba ≡ V.contents state.1 lba
    run_write_batch-Misses lba m = Misses-of_post ws _ _ _ lba (run_batch-WritePost ws state a o) m

    pub run_write_batch-IsOpen : IsOpen config V (run_write_batch_with_retry W ws state).1
    run_write_batch-IsOpen = IsOpen-of_post ws _ _ _ (run_batch-WritePost ws state a o)
